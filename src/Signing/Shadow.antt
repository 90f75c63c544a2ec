-- ===== src/Signing/Shadow.antt =====
-- What `verify_threshold` of crates/ekapkgs-protocol/src/signing.rs makes of an invalid signature.
use ekapkgs_cli.Prelude.{
  ℕ, ◌≡◌, ◌∙◌, refl, sym, ap, true, false, not, some, List, [], ◌∷◌, ◌++◌, Bytes, bytes_eq,
  bytes_eq→eq, bytes_eq_refl, bytes_eq_iff, contains, contains_head, contains_tail, retain, length,
  All, arith, Bool-cases, inl, inr, leb, if◌then◌else◌,
}
use ekapkgs_cli.Signing.{
  Ed25519, SigningCertificate, CertSignature, TrustedRoot, ok, err, insufficient_signatures,
  find_cert, signature_valid, verify_threshold,
}
use ekapkgs_cli.Signing.Threshold.{valid_signers, verify_threshold-valid_signers}

-- The signatures by other certificates than the one of the name.
abbrev pub others : Bytes → List CertSignature → List CertSignature
others name sigs = retain (λ (s : CertSignature). not (bytes_eq s.cert_name name)) sigs

bytes_eq_sym : (x y : Bytes) → bytes_eq x y ≡ false → bytes_eq y x ≡ false
bytes_eq_sym x y h = ground (arith, bytes_eq_iff x y, bytes_eq_iff y x)

-- Two lists that hold the same names but for one.
abbrev SameBut : Bytes → List Bytes → List Bytes → Type 0
SameBut name xs ys = (m : Bytes) → bytes_eq m name ≡ false → contains m xs ≡ contains m ys

SameBut-cons :
    (name x : Bytes) (xs ys : List Bytes) → SameBut name xs ys → SameBut name (x ∷ xs) (x ∷ ys)
unfolding contains
SameBut-cons name x xs ys h m other = ground (arith, h m other)

SameBut-head : (name : Bytes) (xs : List Bytes) → SameBut name (name ∷ xs) xs
unfolding contains
SameBut-head name xs m other = ground (arith, other)

module _ (d : Ed25519) (authorized_certs : List SigningCertificate)
    (trusted_roots : List (TrustedRoot d)) (fingerprint : Bytes) (now_unix : ℕ) where
  abbrev signers : List CertSignature → List Bytes → List Bytes
  signers = valid_signers d authorized_certs trusted_roots fingerprint now_unix

  -- Once a name is seen, its signatures count for nothing.
  signers-others :
      (name : Bytes) (sigs : List CertSignature) (xs ys : List Bytes)
      → contains name xs ≡ true
      → SameBut name xs ys
      → signers sigs xs ≡ signers (others name sigs) ys
  unfolding valid_signers retain
  signers-others name [] xs ys seen same = refl
  signers-others name (s ∷ rest) xs ys seen same =
      let skip = signers-others name rest xs ys seen same in
      elim (Bool-cases (bytes_eq s.cert_name name)) [
        | inl its ↦
            let again : contains s.cert_name xs ≡ true =
              ap (λ n. contains n xs) (bytes_eq→eq s.cert_name name its) ∙ seen in
            ground arith
        | inr other ↦
            let more =
              signers-others name rest (s.cert_name ∷ xs) (s.cert_name ∷ ys)
                (contains_tail name s.cert_name xs seen)
                (SameBut-cons name s.cert_name xs ys same) in
            let agree = same s.cert_name other in ground arith
      ]

  shadowed :
      (cert : SigningCertificate) (pre : List CertSignature) (bad : CertSignature)
      (rest : List CertSignature) (seen : List Bytes)
      → All (λ (s : CertSignature). bytes_eq s.cert_name bad.cert_name ≡ false) pre
      → contains bad.cert_name seen ≡ false
      → find_cert bad.cert_name authorized_certs ≡ some cert
      → signature_valid d trusted_roots fingerprint now_unix cert bad ≡ false
      → signers (pre ++ bad ∷ rest) seen ≡ signers (others bad.cert_name (pre ++ bad ∷ rest)) seen
  unfolding valid_signers retain contains
  shadowed cert [] bad rest seen clear fresh found invalid =
      let ignored =
        signers-others bad.cert_name rest (bad.cert_name ∷ seen) seen
          (contains_head bad.cert_name seen) (SameBut-head bad.cert_name seen) in
      let its = bytes_eq_refl bad.cert_name in ground arith
  shadowed cert (s ∷ pre) bad rest seen clear fresh found invalid =
      let skip = shadowed cert pre bad rest seen clear.1 fresh found invalid in
      let other = clear.0 in
      let still : contains bad.cert_name (s.cert_name ∷ seen) ≡ false =
        ground (arith, fresh, bytes_eq_sym s.cert_name bad.cert_name other) in
      let more = shadowed cert pre bad rest (s.cert_name ∷ seen) clear.1 still found invalid in
      ground arith

  -- When the first signature in the list that bears the name of an authorized certificate is invalid
  -- under it, `verify_threshold` answers, for every threshold, as it does for the list without all
  -- signatures of that name: valid ones that follow are ignored.
  pub invalid_signature_shadows :
      (threshold : ℕ) (cert : SigningCertificate) (pre : List CertSignature) (bad : CertSignature)
      (rest : List CertSignature)
      → All (λ (s : CertSignature). bytes_eq s.cert_name bad.cert_name ≡ false) pre
      → find_cert bad.cert_name authorized_certs ≡ some cert
      → signature_valid d trusted_roots fingerprint now_unix cert bad ≡ false
      → verify_threshold d threshold authorized_certs trusted_roots fingerprint now_unix
          (pre ++ bad ∷ rest)
        ≡ verify_threshold d threshold authorized_certs trusted_roots fingerprint now_unix
            (others bad.cert_name (pre ++ bad ∷ rest))
  unfolding contains
  invalid_signature_shadows threshold cert pre bad rest clear found invalid =
      let count =
        verify_threshold-valid_signers d authorized_certs trusted_roots fingerprint now_unix
          threshold in
      let same = shadowed cert pre bad rest [] clear refl found invalid in
      count (pre ++ bad ∷ rest)
      ∙ (ap
            (λ names.
              if leb threshold (length names)
              then ok tt
              else err (insufficient_signatures threshold (length names)))
            same
          ∙ sym (count (others bad.cert_name (pre ++ bad ∷ rest))))
