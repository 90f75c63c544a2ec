-- ===== src/Nar.antt =====
-- crates/ekapkgs-nix/src/nar.rs: the NAR archive format, its writer and its parser.
-- `usize` has 64 bits.
pub mod Writer
pub mod Reader
pub mod Reads
pub mod Storable
pub mod Nodes
pub mod Directories
pub mod RoundTrip
pub mod Streaming
mod Examples
use ekapkgs_cli.Prelude.{ℕ, Bool, Bytes}

-- `NarNode`, with the list of directory entries beside it.
mutual
  pub data NarNode : Type 0 where
    regular : Bool → Bytes → NarNode
    directory : Entries → NarNode
    symlink : Bytes → NarNode

  pub data Entries : Type 0 where
    end : Entries
    entry : Bytes → NarNode → Entries → Entries
