-- ===== src/Signing/Threshold.antt =====
-- What `verify_threshold` counts.
use ekapkgs_cli.Prelude.{
  ℕ, zero, suc, ◌+◌, ◌≤◌, ◌<◌, ◌≡◌, ◌⊎◌, refl, true, false, some, none, List, [], ◌∷◌, Bytes,
  bytes_eq_iff, contains, contains_head, AllDistinct, length, All, Any, arith, Bool-cases,
  Option-cases, inl, inr, if◌then◌else◌, leb,
}
use ekapkgs_cli.Signing.{
  Ed25519, SigningCertificate, CertSignature, TrustedRoot, ok, err, insufficient_signatures,
  find_cert, signature_valid, threshold_loop, verify_threshold,
}

module _ (d : Ed25519) (authorized_certs : List SigningCertificate)
    (trusted_roots : List (TrustedRoot d)) (fingerprint : Bytes) (now_unix : ℕ) where
  -- The names of the certificates that count, given those already seen: of each authorized
  -- certificate only its first signature is looked at.
  unfoldable pub valid_signers : List CertSignature → List Bytes → List Bytes
  valid_signers [] seen = []
  valid_signers (s ∷ rest) seen =
      let skip = valid_signers rest seen in
      let more = valid_signers rest (s.cert_name ∷ seen) in
      elim (find_cert s.cert_name authorized_certs) [
        | none ↦ skip
        | some cert ↦
            if contains s.cert_name seen
            then skip
            else if signature_valid d trusted_roots fingerprint now_unix cert s
            then s.cert_name ∷ more
            else more
      ]

  -- `name` is that of an authorized certificate, and a listed signature of it is valid.
  abbrev pub IsSigned : Bytes → CertSignature → Type 0
  IsSigned name s =
      (cert : SigningCertificate) × (s.cert_name ≡ name)
      × (find_cert name authorized_certs ≡ some cert)
      × (signature_valid d trusted_roots fingerprint now_unix cert s ≡ true)

  threshold_loop-valid_signers :
      (threshold : ℕ) (sigs : List CertSignature) (count : ℕ) (seen : List Bytes)
      → count < threshold
      → threshold_loop d threshold authorized_certs trusted_roots fingerprint now_unix sigs count
          seen
        ≡ (let total = count + length (valid_signers sigs seen) in
            if leb threshold total then ok tt else err (insufficient_signatures threshold total))
  unfolding threshold_loop valid_signers
  threshold_loop-valid_signers threshold [] count seen h = ground arith
  threshold_loop-valid_signers threshold (s ∷ rest) count seen h = ground (
    arith,
    threshold_loop-valid_signers threshold rest count seen,
    threshold_loop-valid_signers threshold rest count (s.cert_name ∷ seen),
    threshold_loop-valid_signers threshold rest (count + 1) (s.cert_name ∷ seen),
  )

  -- `verify_threshold` succeeds exactly when the certificates that count are at least `threshold`;
  -- otherwise the error carries the threshold and their number.
  pub verify_threshold-valid_signers :
      (threshold : ℕ) (sigs : List CertSignature)
      → verify_threshold d threshold authorized_certs trusted_roots fingerprint now_unix sigs ≡ (
          let total = length (valid_signers sigs []) in
          if leb threshold total then ok tt else err (insufficient_signatures threshold total))
  unfolding verify_threshold
  verify_threshold-valid_signers zero sigs = ground arith
  verify_threshold-valid_signers (suc t) sigs =
      ground (arith, threshold_loop-valid_signers (suc t) sigs 0 [])

  valid_signers-not_seen :
      (sigs : List CertSignature) (seen : List Bytes) (name : Bytes)
      → contains name seen ≡ true
      → contains name (valid_signers sigs seen) ≡ false
  unfolding valid_signers contains
  valid_signers-not_seen [] seen name h = refl
  valid_signers-not_seen (s ∷ rest) seen name h = ground (
    arith,
    valid_signers-not_seen rest seen name,
    valid_signers-not_seen rest (s.cert_name ∷ seen) name,
    bytes_eq_iff name s.cert_name,
  )

  -- More signatures to choose from.
  weaken :
      (s : CertSignature) (sigs : List CertSignature) (names : List Bytes)
      → All (λ (name : Bytes). Any (IsSigned name) sigs) names
      → All (λ (name : Bytes). Any (IsSigned name) (s ∷ sigs)) names
  weaken s sigs [] h = h
  weaken s sigs (n ∷ ns) h = (inr h.0, weaken s sigs ns h.1)

  valid_signers_skip :
      (s : CertSignature) (rest : List CertSignature) (seen : List Bytes)
      → contains s.cert_name seen ≡ true
      → valid_signers (s ∷ rest) seen ≡ valid_signers rest seen
  unfolding valid_signers
  valid_signers_skip s rest seen h = ground arith

  -- One signature leaves the count as it is, or adds its certificate's name.
  valid_signers_cases :
      (s : CertSignature) (rest : List CertSignature) (seen : List Bytes)
      → (valid_signers (s ∷ rest) seen ≡ valid_signers rest seen)
        ⊎ ((valid_signers (s ∷ rest) seen ≡ valid_signers rest (s.cert_name ∷ seen))
            ⊎ ((valid_signers (s ∷ rest) seen
                  ≡ s.cert_name ∷ valid_signers rest (s.cert_name ∷ seen))
                × IsSigned s.cert_name s))
  unfolding valid_signers
  valid_signers_cases s rest seen = elim (Option-cases (find_cert s.cert_name authorized_certs)) [
    | inl unknown ↦ inl (ground arith)
    | inr (cert, found) ↦ elim (Bool-cases (contains s.cert_name seen)) [
      | inl again ↦ inl (ground arith)
      | inr fresh ↦
          elim (Bool-cases (signature_valid d trusted_roots fingerprint now_unix cert s)) [
            | inl valid ↦ inr (inr (ground arith, (cert, refl, found, valid)))
            | inr invalid ↦ inr (inl (ground arith))
          ]
    ]
  ]

  valid_signers-AllDistinct :
      (sigs : List CertSignature) (seen : List Bytes) → AllDistinct (valid_signers sigs seen)
  valid_signers-AllDistinct [] seen = unfold valid_signers in tt
  valid_signers-AllDistinct (s ∷ rest) seen = elim (valid_signers_cases s rest seen) [
    | inl same ↦ rw same (valid_signers-AllDistinct rest seen)
    | inr (inl same) ↦ rw same (valid_signers-AllDistinct rest (s.cert_name ∷ seen))
    | inr (inr (more, signed)) ↦ rw more (
      valid_signers-not_seen rest (s.cert_name ∷ seen) s.cert_name (contains_head s.cert_name seen),
      valid_signers-AllDistinct rest (s.cert_name ∷ seen),
    )
  ]

  valid_signers-IsSigned :
      (sigs : List CertSignature) (seen : List Bytes)
      → All (λ (name : Bytes). Any (IsSigned name) sigs) (valid_signers sigs seen)
  valid_signers-IsSigned [] seen = unfold valid_signers in tt
  valid_signers-IsSigned (s ∷ rest) seen = elim (valid_signers_cases s rest seen) [
    | inl same ↦ rw same (weaken s rest _ (valid_signers-IsSigned rest seen))
    | inr (inl same) ↦ rw same (weaken s rest _ (valid_signers-IsSigned rest (s.cert_name ∷ seen)))
    | inr (inr (more, signed)) ↦
        rw more (inl signed, weaken s rest _ (valid_signers-IsSigned rest (s.cert_name ∷ seen)))
  ]

  -- When `verify_threshold` succeeds there are at least `threshold` pairwise different names, each that
  -- of an authorized certificate with a signature in the list that is valid under it: its chain leads
  -- to a trusted root at that time, and the signature verifies over the fingerprint.
  pub verify_threshold_sound :
      (threshold : ℕ) (sigs : List CertSignature)
      → verify_threshold d threshold authorized_certs trusted_roots fingerprint now_unix sigs
        ≡ ok tt
      → (names : List Bytes) × (threshold ≤ length names)
        × AllDistinct names
        × All (λ (name : Bytes). Any (IsSigned name) sigs) names
  verify_threshold_sound threshold sigs h = (
    valid_signers sigs [],
    ground (arith, verify_threshold-valid_signers threshold sigs),
    valid_signers-AllDistinct sigs [],
    valid_signers-IsSigned sigs [],
  )
