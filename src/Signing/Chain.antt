-- ===== src/Signing/Chain.antt =====
-- What `verify_chain` accepts, and that it accepts what `issue_certificate` makes.
use ekapkgs_cli.Prelude.{
  ℕ, ◌≤◌, ◌≡◌, ◌≢◌, ◌↔◌, refl, true, some, List, [], ◌∷◌, ◌++◌, Bytes, bytes_eq, bytes_eq_iff,
  bytes_eq→eq, length, All, arith, ap, Bool-cases, Option-cases, inl, inr,
}
use ekapkgs_cli.Signing.{
  Ed25519, Ed25519Laws, SigningCertificate, CertificateChain, TrustedRoot, ok, find_root,
  verify_cert, verify_chain, certificate_sign_payload, issue_certificate,
}

module _ (d : Ed25519) where
  -- `root` is the first of `roots` whose name is `issuer`.
  pub record IsFirstRoot (issuer : Bytes) (roots : List (TrustedRoot d)) (root : TrustedRoot d)
      : Type 0 where
    pub front : List (TrustedRoot d)
    pub back : List (TrustedRoot d)
    pub split : roots ≡ front ++ (root ∷ back)
    pub named : root.name ≡ issuer
    pub others : All (λ (r : TrustedRoot d). r.name ≢ issuer) front

  find_root→IsFirstRoot :
      (issuer : Bytes) (roots : List (TrustedRoot d)) (root : TrustedRoot d)
      → find_root d issuer roots ≡ some root
      → IsFirstRoot issuer roots root
  unfolding find_root
  find_root→IsFirstRoot issuer [] root h = cc
  find_root→IsFirstRoot issuer (r ∷ rs) root h = elim (Bool-cases (bytes_eq r.name issuer)) [
    | inl same ↦
        let first : r ≡ root = ground arith in
        record {
          front = [];
          back = rs;
          split = ap (λ x. x ∷ rs) first;
          named = rw (← first) (bytes_eq→eq r.name issuer same);
          others = tt;
        }
    | inr differs ↦
        let later : IsFirstRoot issuer rs root =
          find_root→IsFirstRoot issuer rs root (rw differs at h) in
        record {
          front = r ∷ later.front;
          back = later.back;
          split = ap (λ xs. r ∷ xs) later.split;
          named = later.named;
          others = (λ p. cc (differs, (bytes_eq_iff r.name issuer).1 p), later.others);
        }
  ]

  find_root-append :
      (issuer : Bytes) (front back : List (TrustedRoot d)) (root : TrustedRoot d)
      → All (λ (r : TrustedRoot d). r.name ≢ issuer) front
      → root.name ≡ issuer
      → find_root d issuer (front ++ (root ∷ back)) ≡ some root
  unfolding find_root
  find_root-append issuer [] back root h p = rw ((bytes_eq_iff root.name issuer).1 p)
  find_root-append issuer (r ∷ front) back root h p = elim (Bool-cases (bytes_eq r.name issuer)) [
    | inl same ↦ absurd (h.0 (bytes_eq→eq r.name issuer same))
    | inr differs ↦ rw differs (find_root-append issuer front back root h.1 p)
  ]

  -- What a certificate has to satisfy at time `now_unix`, for the key `key` to be taken from it.
  pub record Accepts (cert : SigningCertificate) (roots : List (TrustedRoot d)) (now_unix : ℕ)
      (key : d.VerifyingKey) : Type 0 where
    pub root : TrustedRoot d
    pub trusted : IsFirstRoot cert.issuer roots root
    pub begun : cert.not_before ≤ now_unix
    pub not_over : now_unix ≤ cert.not_after
    pub signature_size : length cert.issuer_signature ≡ 64
    pub signed :
        d.verify root.public_key (certificate_sign_payload cert) cert.issuer_signature ≡ true
    pub key_size : length cert.public_key ≡ 32
    pub key_read : d.from_bytes cert.public_key ≡ some key

  verify_cert→Accepts :
      (cert : SigningCertificate) (roots : List (TrustedRoot d)) (now_unix : ℕ)
      (key : d.VerifyingKey)
      → verify_cert d cert roots now_unix ≡ ok key
      → Accepts cert roots now_unix key
  unfolding verify_cert
  verify_cert→Accepts cert roots now_unix key h =
      elim (Option-cases (find_root d cert.issuer roots)) [
        | inl e ↦ cc (h, e)
        | inr (root, e) ↦ record {
          root = root;
          trusted = find_root→IsFirstRoot cert.issuer roots root e;
          begun = ground arith;
          not_over = ground arith;
          signature_size = ground arith;
          signed = ground arith;
          key_size = ground arith;
          key_read = ground arith;
        }
      ]

  Accepts→verify_cert :
      (cert : SigningCertificate) (roots : List (TrustedRoot d)) (now_unix : ℕ)
      (key : d.VerifyingKey)
      → Accepts cert roots now_unix key
      → verify_cert d cert roots now_unix ≡ ok key
  unfolding verify_cert
  Accepts→verify_cert cert roots now_unix key a =
      let found : find_root d cert.issuer roots ≡ some a.root = rw a.trusted.split (
        find_root-append cert.issuer a.trusted.front a.trusted.back a.root a.trusted.others
          a.trusted.named) in
      ground arith

  -- `verify_chain` returns a key exactly when the chain holds a certificate whose issuer is a trusted
  -- root (the first of that name), whose validity period contains `now_unix`, whose issuer signature
  -- has 64 bytes and verifies under that root over the payload, and whose 32 key bytes read as the key.
  pub verify_chain_iff :
      (chain : CertificateChain) (roots : List (TrustedRoot d)) (now_unix : ℕ)
      (key : d.VerifyingKey)
      → (verify_chain d chain roots now_unix ≡ ok key) ↔ (
          (cert : SigningCertificate) × (chain.signing_cert ≡ some cert)
          × Accepts cert roots now_unix key)
  unfolding verify_chain
  verify_chain_iff chain roots now_unix key = (
    λ h. elim (Option-cases chain.signing_cert) [
      | inl e ↦ cc (h, e)
      | inr (cert, e) ↦ (cert, e, verify_cert→Accepts cert roots now_unix key (rw e at h))
    ],
    λ (cert, e, a). rw e (Accepts→verify_cert cert roots now_unix key a),
  )

module _ (d : Ed25519) (laws : Ed25519Laws d) where
  -- A certificate that `issue_certificate` makes with the CA's signing key is accepted by
  -- `verify_chain` at every time of its validity period, with the key that it was issued for, when
  -- the first trusted root of the CA's name holds the CA's verifying key.
  pub verify_chain-issue_certificate :
      (ca_key : d.SigningKey) (ca_name cert_name : Bytes) (key : d.VerifyingKey)
      (not_before not_after now_unix : ℕ) (root : TrustedRoot d) (roots : List (TrustedRoot d))
      → IsFirstRoot d ca_name roots root
      → root.public_key ≡ d.verifying_key ca_key
      → not_before ≤ now_unix
      → now_unix ≤ not_after
      → verify_chain d
          (record {
            signing_cert =
                some (issue_certificate d ca_key ca_name cert_name key not_before not_after);
            intermediates = [];
          })
          roots
          now_unix
        ≡ ok key
  unfolding issue_certificate certificate_sign_payload
  verify_chain-issue_certificate ca_key ca_name cert_name key not_before not_after now_unix root
        roots first same begun not_over =
      (verify_chain_iff d _ roots now_unix key).1 (
        _,
        refl,
        record {
          root = root;
          trusted = first;
          begun = begun;
          not_over = not_over;
          signature_size = laws.signature_length ca_key _;
          signed = rw same (laws.verify-sign ca_key _);
          key_size = laws.key_length key;
          key_read = laws.from_bytes-as_bytes key;
        },
      )
