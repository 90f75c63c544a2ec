-- ===== src/Castore/Ingest/Extends.antt =====
-- Stores that grow, crates/ekapkgs-serve/src/storage/castore.rs: the loop over the chunks of a file.
use ekapkgs_cli.Prelude.{◌≤◌, length, List, [], ◌∷◌, Bytes, All}
use ekapkgs_cli.Castore.{chunk_max, CastoreBackend}
use ekapkgs_cli.Castore.Ingest.{Codecs, CodecLaws, store_chunks}
use ekapkgs_cli.Castore.Ingest.Valid.{HasChunk, IsValid, Extends}
use ekapkgs_cli.Castore.Ingest.Stored.{HasChunk-stored, store_chunk-IsValid, store_chunk-Extends}

module _ (k : Codecs) where
  pub Extends-refl : (s : CastoreBackend) → Extends k s s
  Extends-refl s = record { chunks = λ x h. h; files = λ b h. h; directories = λ d e h. h }

  pub Extends-trans : (s t u : CastoreBackend) → Extends k s t → Extends k t u → Extends k s u
  Extends-trans s t u f g = record {
    chunks = λ x h. g.chunks x (f.chunks x h);
    files = λ b h. g.files b (f.files b h);
    directories = λ d e h. g.directories d e (f.directories d e h);
  }

module _ (k : Codecs) (laws : CodecLaws k) where
  -- The three facts about the loop, together.
  pub store_chunks-IsValid :
      (cs : List Bytes) (s : CastoreBackend)
      → All (λ c. length c ≤ chunk_max) cs
      → IsValid k s
      → IsValid k (store_chunks k cs s)
        × Extends k s (store_chunks k cs s)
        × All (HasChunk k (store_chunks k cs s)) cs
  unfolding store_chunks
  store_chunks-IsValid [] s sizes valid = (valid, Extends-refl k s, tt)
  store_chunks-IsValid (c ∷ cs) s sizes valid =
      let (valid', grown, present) =
        store_chunks-IsValid cs _ sizes.1 (store_chunk-IsValid k laws c s sizes.0 valid) in
      (
        valid',
        Extends-trans k _ _ _ (store_chunk-Extends k laws c s sizes.0 valid) grown,
        (grown.chunks c (HasChunk-stored k laws c s sizes.0 valid), present),
      )
