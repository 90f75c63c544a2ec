-- ===== src/Signing.antt =====
-- crates/ekapkgs-protocol/src/signing.rs: certificates, certificate chains, threshold policies.
-- ed25519 (ed25519_dalek) is a parameter: `Ed25519` holds its operations, `Ed25519Laws` its documented
-- behaviour.
pub mod Chain
pub mod Threshold
pub mod Shadow
pub mod Payload
mod Examples
use ekapkgs_cli.Prelude.{
  ℕ, ◌+◌, ◌≡◌, Bool, true, false, Option, none, some, List, [], ◌∷◌, ◌++◌, Bytes, bytes_eq,
  contains, le_bytes, length, ltb, leb, ◌==◌, if◌then◌else◌, not,
}

-- The verification errors. The strings and numbers that each error carries are kept, but for the texts of
-- `invalid_path_signature` and `ed25519`.
pub data CertError : Type 0 where
  missing_cert : CertError
  untrusted_issuer : Bytes → CertError
  expired : Bytes → ℕ → ℕ → CertError
  not_yet_valid : Bytes → ℕ → ℕ → CertError
  invalid_issuer_signature : Bytes → CertError
  invalid_path_signature : CertError
  invalid_key_length : ℕ → ℕ → CertError
  insufficient_signatures : ℕ → ℕ → CertError
  ed25519 : CertError

pub data Result {ℓ} (A : Type ℓ) : Type ℓ where
  ok : A → Result A
  err : CertError → Result A

infixl 5 ◌>>=◌
abbrev pub ◌>>=◌ {ℓ κ} : {A : Type ℓ} {B : Type κ} → Result A → (A → Result B) → Result B
ok a >>= f = f a
err e >>= f = err e

infixl 5 ◌>>◌
abbrev pub ◌>>◌ {ℓ κ} : {A : Type ℓ} {B : Type κ} → Result A → Result B → Result B
m >> k = m >>= λ _. k

-- `ensure`-like early returns: fail with `e` where the test holds.
abbrev pub fail_if : Bool → CertError → Result (Unit {0})
fail_if true e = err e
fail_if false e = ok tt

-- `Option::ok_or`.
abbrev pub ok_or {ℓ} : {A : Type ℓ} → Option A → CertError → Result A
ok_or none e = err e
ok_or (some a) e = ok a

-- `Result::is_ok`.
abbrev pub is_ok {ℓ} : {A : Type ℓ} → Result A → Bool
is_ok (ok a) = true
is_ok (err e) = false

-- The operations of ed25519_dalek that the module calls.
pub record Ed25519 : Type 1 where
  pub SigningKey : Type 0
  pub VerifyingKey : Type 0
  pub verifying_key : SigningKey → VerifyingKey
  pub as_bytes : VerifyingKey → Bytes
  pub from_bytes : Bytes → Option VerifyingKey
  pub sign : SigningKey → Bytes → Bytes
  pub verify : VerifyingKey → Bytes → Bytes → Bool

-- What ed25519_dalek documents of them.
pub record Ed25519Laws (d : Ed25519) : Type 0 where
  pub key_length : (k : d.VerifyingKey) → length (d.as_bytes k) ≡ 32
  pub from_bytes-as_bytes : (k : d.VerifyingKey) → d.from_bytes (d.as_bytes k) ≡ some k
  pub signature_length : (s : d.SigningKey) (m : Bytes) → length (d.sign s m) ≡ 64
  pub verify-sign :
      (s : d.SigningKey) (m : Bytes) → d.verify (d.verifying_key s) m (d.sign s m) ≡ true

pub record SigningCertificate : Type 0 where
  pub name : Bytes
  pub public_key : Bytes
  pub not_before : ℕ
  pub not_after : ℕ
  pub issuer : Bytes
  pub issuer_signature : Bytes

pub record CertificateChain : Type 0 where
  pub signing_cert : Option SigningCertificate
  pub intermediates : List SigningCertificate

pub record CertSignature : Type 0 where
  pub cert_name : Bytes
  pub signature : Bytes

-- `name || public_key || not_before || not_after || issuer`
unfoldable pub certificate_sign_payload : SigningCertificate → Bytes
certificate_sign_payload cert =
    cert.name
    ++ (cert.public_key
        ++ (le_bytes 8 cert.not_before ++ (le_bytes 8 cert.not_after ++ cert.issuer)))

-- `authorized_certs.iter().find(|c| c.name == name)`
unfoldable pub find_cert : Bytes → List SigningCertificate → Option SigningCertificate
find_cert name [] = none
find_cert name (c ∷ cs) = if bytes_eq c.name name then some c else find_cert name cs

module _ (d : Ed25519) where
  pub record TrustedRoot : Type 0 where
    pub name : Bytes
    pub public_key : d.VerifyingKey

  -- `trusted_roots.iter().find(|r| r.name == cert.issuer)`
  unfoldable pub find_root : Bytes → List TrustedRoot → Option TrustedRoot
  find_root issuer [] = none
  find_root issuer (r ∷ rs) = if bytes_eq r.name issuer then some r else find_root issuer rs

  -- The checks of `verify_chain` once the certificate is there.
  unfoldable pub verify_cert : SigningCertificate → List TrustedRoot → ℕ → Result d.VerifyingKey
  verify_cert cert trusted_roots now_unix = do
    root ← ok_or (find_root cert.issuer trusted_roots) (untrusted_issuer cert.issuer)
    fail_if (ltb now_unix cert.not_before) (not_yet_valid cert.name cert.not_before now_unix)
    fail_if (ltb cert.not_after now_unix) (expired cert.name cert.not_after now_unix)
    fail_if (not (length cert.issuer_signature == 64))
        (invalid_key_length 64 (length cert.issuer_signature))
    fail_if (not (d.verify root.public_key (certificate_sign_payload cert) cert.issuer_signature))
        (invalid_issuer_signature cert.name)
    fail_if (not (length cert.public_key == 32)) (invalid_key_length 32 (length cert.public_key))
    ok_or (d.from_bytes cert.public_key) ed25519

  unfoldable pub verify_chain : CertificateChain → List TrustedRoot → ℕ → Result d.VerifyingKey
  verify_chain chain trusted_roots now_unix = do
    cert ← ok_or chain.signing_cert missing_cert
    verify_cert cert trusted_roots now_unix

  unfoldable pub verify_path_signature : d.VerifyingKey → Bytes → CertSignature → Result (Unit {0})
  verify_path_signature verifying_key fingerprint cert_sig = do
    fail_if (not (length cert_sig.signature == 64))
        (invalid_key_length 64 (length cert_sig.signature))
    fail_if (not (d.verify verifying_key fingerprint cert_sig.signature)) invalid_path_signature
    ok tt

  -- One certificate's chain and path signature, as one round of the loop checks them.
  unfoldable pub signature_valid :
      List TrustedRoot → Bytes → ℕ → SigningCertificate → CertSignature → Bool
  signature_valid trusted_roots fingerprint now_unix cert cert_sig =
      let chain : CertificateChain = record { signing_cert = some cert; intermediates = [] } in
      is_ok (
        verify_chain chain trusted_roots now_unix >>= λ verifying_key.
        verify_path_signature verifying_key fingerprint cert_sig)

  -- The loop of `verify_threshold` over the signatures that are left.
  module _ (threshold : ℕ) (authorized_certs : List SigningCertificate)
      (trusted_roots : List TrustedRoot) (fingerprint : Bytes) (now_unix : ℕ) where
    unfoldable pub threshold_loop : List CertSignature → ℕ → List Bytes → Result (Unit {0})
    threshold_loop [] valid_count seen_certs = err (insufficient_signatures threshold valid_count)
    threshold_loop (cert_sig ∷ rest) valid_count seen_certs =
        let skip = threshold_loop rest valid_count seen_certs in
        let invalid = threshold_loop rest valid_count (cert_sig.cert_name ∷ seen_certs) in
        let counted = threshold_loop rest (valid_count + 1) (cert_sig.cert_name ∷ seen_certs) in
        elim (find_cert cert_sig.cert_name authorized_certs) [
          | none ↦ skip
          | some cert ↦
              if contains cert_sig.cert_name seen_certs
              then skip
              else if signature_valid trusted_roots fingerprint now_unix cert cert_sig
              then (if leb threshold (valid_count + 1) then ok tt else counted)
              else invalid
        ]

    unfoldable pub verify_threshold : List CertSignature → Result (Unit {0})
    verify_threshold cert_signatures =
        if threshold == 0 then ok tt else threshold_loop cert_signatures 0 []

  -- `issue_certificate` of a CA key.
  unfoldable pub issue_certificate :
      d.SigningKey → Bytes → Bytes → d.VerifyingKey → ℕ → ℕ → SigningCertificate
  issue_certificate ca_key ca_name cert_name cert_public_key not_before not_after =
      let cert : SigningCertificate = record {
        name = cert_name;
        public_key = d.as_bytes cert_public_key;
        not_before = not_before;
        not_after = not_after;
        issuer = ca_name;
        issuer_signature = [];
      } in
      let payload = certificate_sign_payload cert in
      record cert { issuer_signature = d.sign ca_key payload }
