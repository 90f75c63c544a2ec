-- ===== src/Signing/Examples.antt =====
-- Runs of the signing module over a toy signature scheme, and the theorems at concrete inputs.
use ekapkgs_cli.Prelude.{
  ◌++◌, ℕ, ◌≤◌, ◌≡◌, ◌↔◌, refl, Bool, some, none, Option, List, [], ◌∷◌, Bytes, bytes_eq,
  bytes_eq_refl, codes, contains, le_bytes, length, length-replicate, replicate, All, AllDistinct,
  Any, arith,
}
use ekapkgs_cli.Signing.{
  Ed25519, Ed25519Laws, SigningCertificate, CertificateChain, CertSignature, TrustedRoot, ok, err,
  insufficient_signatures, find_cert, find_root, signature_valid, verify_cert, verify_chain,
  verify_path_signature, threshold_loop, verify_threshold, issue_certificate,
  certificate_sign_payload,
}
use ekapkgs_cli.Signing.Chain.{
  IsFirstRoot, Accepts, verify_chain_iff, verify_chain-issue_certificate,
}
use ekapkgs_cli.Signing.Payload.{IsSized, payload_injective}
use ekapkgs_cli.Signing.Shadow.{others, invalid_signature_shadows}
use ekapkgs_cli.Signing.Threshold.{
  IsSigned, valid_signers, verify_threshold-valid_signers, verify_threshold_sound,
}

-- A key is a number below 256, repeated to 32 bytes; a signature repeats the key to 64 bytes.
abbrev toy_read : Bytes → Option ℕ
toy_read [] = none
toy_read (b ∷ bs) = some b

abbrev toy : Ed25519
toy = record {
  SigningKey = ℕ;
  VerifyingKey = ℕ;
  verifying_key = λ k. k;
  as_bytes = λ k. replicate 32 k;
  from_bytes = toy_read;
  sign = λ k m. replicate 64 k;
  verify = λ k m s. bytes_eq s (replicate 64 k);
}

toy_laws : Ed25519Laws toy
toy_laws = record {
  key_length = λ k. length-replicate 32 k;
  from_bytes-as_bytes = λ k. refl;
  signature_length = λ k m. length-replicate 64 k;
  verify-sign = λ k m. bytes_eq_refl (replicate 64 k);
}

abbrev ca : Bytes
ca = codes "ca"

abbrev root : TrustedRoot toy
root = record { name = ca; public_key = 7 }

first_root : IsFirstRoot toy ca (root ∷ []) root
first_root = record { front = []; back = []; split = refl; named = refl; others = tt }

abbrev cert : SigningCertificate
cert = record {
  name = codes "ci";
  public_key = replicate 32 9;
  not_before = 10;
  not_after = 20;
  issuer = ca;
  issuer_signature = replicate 64 7;
}

abbrev chain : CertificateChain
chain = record { signing_cert = some cert; intermediates = [] }

abbrev good : CertSignature
good = record { cert_name = codes "ci"; signature = replicate 64 9 }

abbrev bad : CertSignature
bad = record { cert_name = codes "ci"; signature = replicate 64 8 }

verify_chain_iff_example :
    (verify_chain toy chain (root ∷ []) 15 ≡ ok 9)
    ↔ ((c : SigningCertificate) × (chain.signing_cert ≡ some c) × Accepts toy c (root ∷ []) 15 9)
verify_chain_iff_example = verify_chain_iff toy chain (root ∷ []) 15 9

verify_chain-issue_certificate_example :
    verify_chain toy
      (record {
        signing_cert = some (issue_certificate toy 7 ca (codes "ci") 9 10 20);
        intermediates = [];
      })
      (root ∷ [])
      20
    ≡ ok 9
verify_chain-issue_certificate_example =
    verify_chain-issue_certificate toy toy_laws 7 ca (codes "ci") 9 10 20 20 root (root ∷ [])
      first_root refl (omega arith) (omega arith)

sized : IsSized cert
sized = record { key_size = refl; not_before_fits = omega arith; not_after_fits = omega arith }

payload_injective_example :
    (cert.name ≡ cert.name)
    × (cert.public_key ≡ cert.public_key)
    × (cert.not_before ≡ cert.not_before)
    × (cert.not_after ≡ cert.not_after)
    × (cert.issuer ≡ cert.issuer)
payload_injective_example = payload_injective cert cert sized sized refl refl

threshold_met :
    verify_threshold toy 1 (cert ∷ []) (root ∷ []) (codes "fp") 15 (good ∷ bad ∷ []) ≡ ok tt
unfolding verify_threshold find_cert contains signature_valid verify_chain verify_cert find_root
    bytes_eq certificate_sign_payload le_bytes verify_path_signature threshold_loop
threshold_met = refl

bad_invalid : signature_valid toy (root ∷ []) (codes "fp") 15 cert bad ≡ Bool.false
unfolding signature_valid verify_chain verify_cert find_root bytes_eq certificate_sign_payload
    le_bytes verify_path_signature
bad_invalid = refl

cert_found : find_cert (codes "ci") (cert ∷ []) ≡ some cert
unfolding find_cert bytes_eq
cert_found = refl

verify_threshold-valid_signers_example :
    verify_threshold toy 1 (cert ∷ []) (root ∷ []) (codes "fp") 15 (good ∷ bad ∷ []) ≡ ok tt
unfolding valid_signers find_cert contains signature_valid verify_chain verify_cert find_root
    bytes_eq certificate_sign_payload le_bytes verify_path_signature
verify_threshold-valid_signers_example =
    verify_threshold-valid_signers toy (cert ∷ []) (root ∷ []) (codes "fp") 15 1 (good ∷ bad ∷ [])

verify_threshold_sound_example :
    (names : List Bytes) × (1 ≤ length names)
    × AllDistinct names
    × All
        (λ (name : Bytes).
          Any (IsSigned toy (cert ∷ []) (root ∷ []) (codes "fp") 15 name) (good ∷ bad ∷ []))
        names
verify_threshold_sound_example =
    verify_threshold_sound toy (cert ∷ []) (root ∷ []) (codes "fp") 15 1 (good ∷ bad ∷ [])
      threshold_met

abbrev stranger : CertSignature
stranger = record { cert_name = codes "xx"; signature = [] }

stranger_differs : bytes_eq stranger.cert_name bad.cert_name ≡ Bool.false
unfolding bytes_eq
stranger_differs = refl

invalid_signature_shadows_example :
    verify_threshold toy 1
      (cert ∷ [])
      (root ∷ [])
      (codes "fp")
      15
      ((stranger ∷ []) ++ bad ∷ good ∷ [])
    ≡ verify_threshold toy 1
        (cert ∷ [])
        (root ∷ [])
        (codes "fp")
        15
        (others bad.cert_name ((stranger ∷ []) ++ bad ∷ good ∷ []))
invalid_signature_shadows_example =
    invalid_signature_shadows toy (cert ∷ []) (root ∷ []) (codes "fp") 15 1 cert (stranger ∷ []) bad
      (good ∷ []) (stranger_differs, tt) cert_found bad_invalid

-- A threshold of one is not met, though a valid signature is there.
valid_signature_ignored :
    verify_threshold toy 1 (cert ∷ []) (root ∷ []) (codes "fp") 15 (bad ∷ good ∷ [])
    ≡ err (insufficient_signatures 1 0)
unfolding verify_threshold find_cert contains signature_valid verify_chain verify_cert find_root
    bytes_eq certificate_sign_payload le_bytes verify_path_signature threshold_loop
valid_signature_ignored = refl
