-- ===== src/Lib.antt =====
-- ekapkgs-cli: a Nix command line client and a binary cache server, in Rust.
--
-- The client asks the server in one call for the store paths that it lacks; the server answers with
-- manifest entries, a download plan and signatures. Store paths travel as NAR archives, and the server
-- keeps its cache within a size by collecting the paths used least recently. The parts that are modelled:
--
--   Prelude      Boolean tests, lists over the native numbers, byte strings, UTF-8.
--   Signing      crates/ekapkgs-protocol/src/signing.rs: certificate chains, threshold policies. ed25519
--                is the record `Ed25519`; what its documentation promises is `Ed25519Laws`.
--   Gc           crates/ekapkgs-serve/src/gc.rs: the reference-aware eviction (Gc.Evict: the loops of
--                `run_gc`; Gc: the database around them; Gc.Outcome: the result of a run), and Gc.Loops:
--                the background loops `gc_loop` and `cas_gc_loop`, `cas_maybe_run_gc` over the interface
--                `CasOperations`, whose laws the content-addressed store fills in Gc.Loops.Backend.
--                Each turn of a loop has the time at which its flush would be made.
--   Castore      crates/ekapkgs-serve/src/storage/castore.rs: the tables, `evict_path`, the storage of
--                chunks and the reading of files. Castore.Ingest: `ingest_node` and
--                crates/ekapkgs-nix/src/decompose.rs, the client's counterpart. Castore.DirCache: the cache of
--                directories. Castore.Walk: `walk_cas_trees` and the answer of `negotiate_chunks` in
--                crates/ekapkgs-serve/src/api/negotiate.rs. blake3, zstd, FastCDC and the encoding of
--                messages are parameters, the record `Codecs`; what their documentation promises is
--                `CodecLaws`, which Castore.Ingest.Codec fills with concrete functions. Among them that no two
--                data have the same digest is more than holds: no 32-byte digest has it for all data, and
--                the theorems that use it are about data without collisions. The reader of zstd takes
--                the capacity of its output, twice `CHUNK_MAX`, as in the source.
--   ClientStore  crates/ekapkgs/src/chunk_store.rs: the client's chunk store and its eviction, and
--                ClientStore.Pull: the intake of an answer and of the downloads, in
--                crates/ekapkgs/src/cas_pull.rs.
--   Compat       crates/ekapkgs-serve/src/api/compat.rs: the checks of names, ranges, escaping.
--   Storage      crates/ekapkgs-serve/src/storage/mod.rs: the narinfo record and the batch queries.
--   Negotiate    crates/ekapkgs-serve/src/api/negotiate.rs: `expand_closure_hashes`,
--                `build_download_plan` and `extract_pname`.
--   StorePath    crates/ekapkgs-nix/src/store.rs: hash, name and version of a store path.
--   Bloom        crates/ekapkgs-nix/src/bloom.rs: the filter, its sizes computed by a parameter.
--   Tokens       crates/ekapkgs-serve/src/tokens.rs: the API tokens.
--   Nar          crates/ekapkgs-nix/src/nar.rs: the archive writer (Nar.Writer) and parser (Nar.Reader).
--                Nar.Streaming: the writer over a tree of the store, and `reconstruct_node` of castore.rs.
--
-- Strings are lists of their UTF-8 bytes, `usize` is 64 bits wide, hash sets are lists that are only
-- asked what they contain. The database of the collector is lists of rows, its `ORDER BY` a parameter
-- that permutes them; its statements are taken to succeed. Loops run on fuel: `run_gc` has one round more
-- than there are rows, which is proved enough, `parse_nar` one more than there are bytes, and
-- `build_download_plan` one round more than entries, which is proved enough. `expand_closure_hashes` counts
-- down what is left to its cap of 50000. The streaming writer has the depth of the tree as fuel, and its
-- theorem starts from a tree that the same fuel reconstructs; the walks of a tree have its levels as fuel,
-- which is proved enough.
--
-- Not modelled: the command line front end, Nix evaluation and processes, HTTP and gRPC transport, the
-- paths and the recovery of the content-addressed store, FUSE, logging and metrics, and the terminal
-- display: these are input and output around the parts above, or are left for later.
pub mod Prelude
pub mod Signing
pub mod Gc
pub mod Nar
pub mod StorePath
pub mod Storage
pub mod Negotiate
pub mod Tokens
pub mod Bloom
pub mod Castore
pub mod ClientStore
pub mod Compat
