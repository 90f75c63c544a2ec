-- ===== src/Signing/Payload.antt =====
-- What the CA's signature covers: `certificate_sign_payload` has no separators, so the question is
-- which certificates share a payload.
use ekapkgs_cli.Prelude.{
  ◌+◌, ◌^◌, ◌<◌, ◌≡◌, ap, Bytes, ◌++◌, le_bytes, length, length-append, length-le_bytes,
  le_bytes-injective, append-injective, arith,
}
use ekapkgs_cli.Signing.{SigningCertificate, certificate_sign_payload}

-- The validity bounds are `u64`s and the key has the size that `verify_chain` asks for.
pub record IsSized (c : SigningCertificate) : Type 0 where
  pub key_size : length c.public_key ≡ 32
  pub not_before_fits : c.not_before < 2 ^ 64
  pub not_after_fits : c.not_after < 2 ^ 64

abbrev dates : SigningCertificate → Bytes
dates c = le_bytes 8 c.not_before ++ (le_bytes 8 c.not_after ++ c.issuer)

length-dates : (c : SigningCertificate) → length (dates c) ≡ 16 + length c.issuer
length-dates c = omega (
  arith,
  length-append (le_bytes 8 c.not_before) (le_bytes 8 c.not_after ++ c.issuer),
  length-append (le_bytes 8 c.not_after) c.issuer,
  length-le_bytes 8 c.not_before,
  length-le_bytes 8 c.not_after,
)

-- Two certificates of issuers with names of equal length, with 32-byte keys and `u64` dates, that have
-- the same payload agree in everything that the payload names: name, key, both dates and issuer.
pub payload_injective :
    (a b : SigningCertificate)
    → IsSized a
    → IsSized b
    → length a.issuer ≡ length b.issuer
    → certificate_sign_payload a ≡ certificate_sign_payload b
    → (a.name ≡ b.name)
      × (a.public_key ≡ b.public_key)
      × (a.not_before ≡ b.not_before)
      × (a.not_after ≡ b.not_after)
      × (a.issuer ≡ b.issuer)
unfolding certificate_sign_payload
payload_injective a b sa sb issuers p =
    let names =
      append-injective a.name b.name (a.public_key ++ dates a) (b.public_key ++ dates b)
        (omega (
          arith,
          ap length p,
          length-append a.name (a.public_key ++ dates a),
          length-append b.name (b.public_key ++ dates b),
          length-append a.public_key (dates a),
          length-append b.public_key (dates b),
          length-dates a,
          length-dates b,
          sa.key_size,
          sb.key_size,
        ))
        p in
    let keys =
      append-injective a.public_key b.public_key (dates a) (dates b)
        (omega (arith, sa.key_size, sb.key_size)) names.1 in
    let befores =
      append-injective (le_bytes 8 a.not_before) (le_bytes 8 b.not_before)
        (le_bytes 8 a.not_after ++ a.issuer) (le_bytes 8 b.not_after ++ b.issuer)
        (omega (arith, length-le_bytes 8 a.not_before, length-le_bytes 8 b.not_before)) keys.1 in
    let afters =
      append-injective (le_bytes 8 a.not_after) (le_bytes 8 b.not_after) a.issuer b.issuer
        (omega (arith, length-le_bytes 8 a.not_after, length-le_bytes 8 b.not_after)) befores.1 in
    (
      names.0,
      keys.0,
      le_bytes-injective 8 a.not_before b.not_before sa.not_before_fits sb.not_before_fits
          befores.0,
      le_bytes-injective 8 a.not_after b.not_after sa.not_after_fits sb.not_after_fits afters.0,
      afters.1,
    )
