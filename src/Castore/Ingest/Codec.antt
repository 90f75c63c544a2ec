-- ===== src/Castore/Ingest/Codec.antt =====
-- A concrete choice of the libraries that crates/ekapkgs-serve/src/storage/castore.rs calls, for which all
-- that is asked of them holds: a digest numbers its data, and a message is a list of numbers.
mod Pull
use ekapkgs_cli.Prelude.{
  ℕ, zero, suc, ◌+◌, ◌*◌, ◌≤◌, leb, All, ◌≡◌, ◌≢◌, refl, sym, ap, ◌∙◌, Bool, true, false, Option,
  none, some, List, [], ◌∷◌, ◌++◌, append_assoc, append-nil, Bytes, length, length-replicate,
  replicate, take, drop, take-append, drop-append, arith, ◌==◌, if◌then◌else◌,
}
use ekapkgs_cli.Nar.Streaming.{
  CaNode, no_variant, file_node, directory_node, symlink_node, CaDirectoryEntry,
}
use ekapkgs_cli.Castore.{chunk_max}
use ekapkgs_cli.Castore.Ingest.{Codecs, CodecLaws, concat}

-- `2 ^ x * (2 * n + 1)`
pub pair : ℕ → ℕ → ℕ
pair zero n = 2 * n + 1
pair (suc x) n = 2 * pair x n

pair-injective : (x y m n : ℕ) → pair x m ≡ pair y n → (x ≡ y) × (m ≡ n)
unfolding pair
pair-injective zero zero m n h = (refl, omega arith)
pair-injective zero (suc y) m n h = absurd (omega arith)
pair-injective (suc x) zero m n h = absurd (omega arith)
pair-injective (suc x) (suc y) m n h =
    let rest = pair-injective x y m n (omega arith) in (ap suc rest.0, rest.1)

pair_pos : (x m : ℕ) → pair x m ≢ 0
unfolding pair
pair_pos zero m h = absurd (omega arith)
pair_pos (suc x) m h = let rest = pair_pos x m in absurd (ground arith)

pub number : Bytes → ℕ
number [] = 0
number (x ∷ xs) = pair x (number xs)

number-injective : (a b : Bytes) → number a ≡ number b → a ≡ b
unfolding number
number-injective [] [] h = refl
number-injective [] (y ∷ b) h = absurd (pair_pos y (number b) (sym h))
number-injective (x ∷ a) [] h = absurd (pair_pos x (number a) h)
number-injective (x ∷ a) (y ∷ b) h =
    let (heads, rest) = pair-injective x y (number a) (number b) h in
    let tails = number-injective a b rest in cc

pub digest_of : Bytes → Bytes
digest_of b = number b ∷ replicate 31 0

pub one_by_one : Bytes → List Bytes
one_by_one [] = []
one_by_one (b ∷ bs) = (b ∷ []) ∷ one_by_one bs

concat-one_by_one : (x : Bytes) → concat (one_by_one x) ≡ x
unfolding one_by_one
concat-one_by_one [] = refl
concat-one_by_one (b ∷ bs) = ap (λ xs. b ∷ xs) (concat-one_by_one bs)

-- A frame whose content is larger than the capacity is refused.
pub unpack : ℕ → Bytes → Option Bytes
unpack capacity [] = none
unpack capacity (b ∷ bs) = if leb (length bs) capacity then some bs else none

pub put_bytes : Bytes → Bytes
put_bytes b = length b ∷ b

pub get_bytes : Bytes → Option (Bytes × Bytes)
get_bytes [] = none
get_bytes (n ∷ bs) = some (take n bs, drop n bs)

get-put_bytes : (b rest : Bytes) → get_bytes (put_bytes b ++ rest) ≡ some (b, rest)
unfolding get_bytes put_bytes
get-put_bytes b rest = ground (arith, take-append b rest, drop-append b rest)

pub put_optional : Option Bytes → Bytes
put_optional none = 0 ∷ []
put_optional (some d) = 1 ∷ put_bytes d

pub get_optional : Bytes → Option (Option Bytes × Bytes)
get_optional [] = none
get_optional (t ∷ bs) =
    if t == 0
    then some (none, bs)
    else elim (get_bytes bs) [ none ↦ none | some (d, rest) ↦ some (some d, rest) ]

get-put_optional :
    (o : Option Bytes) (rest : Bytes) → get_optional (put_optional o ++ rest) ≡ some (o, rest)
unfolding get_optional put_optional
get-put_optional none rest = refl
get-put_optional (some d) rest = ground (arith, get-put_bytes d rest)

pub flag : Bool → ℕ
flag true = 1
flag false = 0

pub put_node : CaNode → Bytes
put_node no_variant = 0 ∷ []
put_node (file_node d size executable) = 1 ∷ size ∷ flag executable ∷ put_optional d
put_node (directory_node d size) = 2 ∷ size ∷ put_optional d
put_node (symlink_node target) = 3 ∷ put_bytes target

pub get_file : Bytes → Option (CaNode × Bytes)
get_file (size ∷ x ∷ bs) = elim (get_optional bs) [
  | none ↦ none
  | some (d, rest) ↦ some (file_node d size (x == 1), rest)
]
get_file (size ∷ []) = none
get_file [] = none

pub get_directory : Bytes → Option (CaNode × Bytes)
get_directory [] = none
get_directory (size ∷ bs) = elim (get_optional bs) [
  | none ↦ none
  | some (d, rest) ↦ some (directory_node d size, rest)
]

pub get_symlink : Bytes → Option (CaNode × Bytes)
get_symlink bs = elim (get_bytes bs) [
  | none ↦ none
  | some (target, rest) ↦ some (symlink_node target, rest)
]

pub get_node : Bytes → Option (CaNode × Bytes)
get_node [] = none
get_node (t ∷ bs) =
    if t == 0
    then some (no_variant, bs)
    else if t == 1
    then get_file bs
    else if t == 2
    then get_directory bs
    else get_symlink bs

get-put_node : (n : CaNode) (rest : Bytes) → get_node (put_node n ++ rest) ≡ some (n, rest)
unfolding get_node put_node get_file get_directory get_symlink flag
get-put_node no_variant rest = refl
get-put_node (file_node d size true) rest = ground (arith, get-put_optional d rest)
get-put_node (file_node d size false) rest = ground (arith, get-put_optional d rest)
get-put_node (directory_node d size) rest = ground (arith, get-put_optional d rest)
get-put_node (symlink_node target) rest = ground (arith, get-put_bytes target rest)

-- The node that an encoding starts with.
pub decode_root : Bytes → Option CaNode
decode_root bs = elim (get_node bs) [ none ↦ none | some (n, rest) ↦ some n ]

pub decode_root-put_node : (n : CaNode) → decode_root (put_node n) ≡ some n
unfolding decode_root
decode_root-put_node n = ground (arith, get-put_node n [], append-nil (put_node n))

pub put_child : Option CaNode → Bytes
put_child none = 0 ∷ []
put_child (some n) = 1 ∷ put_node n

pub get_child : Bytes → Option (Option CaNode × Bytes)
get_child [] = none
get_child (t ∷ bs) =
    if t == 0
    then some (none, bs)
    else elim (get_node bs) [ none ↦ none | some (n, rest) ↦ some (some n, rest) ]

get-put_child :
    (o : Option CaNode) (rest : Bytes) → get_child (put_child o ++ rest) ≡ some (o, rest)
unfolding get_child put_child
get-put_child none rest = refl
get-put_child (some n) rest = ground (arith, get-put_node n rest)

pub put_entries : List CaDirectoryEntry → Bytes
put_entries [] = []
put_entries (e ∷ es) = put_bytes e.name ++ (put_child e.node ++ put_entries es)

pub get_entries : ℕ → Bytes → Option (List CaDirectoryEntry)
get_entries zero bs = some []
get_entries (suc n) bs = elim (get_bytes bs) [
  | none ↦ none
  | some (name, bs') ↦ elim (get_child bs') [
    | none ↦ none
    | some (node, bs'') ↦ elim (get_entries n bs'') [
      | none ↦ none
      | some es ↦ some ((record { name = name; node = node }) ∷ es)
    ]
  ]
]

get-put_entries : (es : List CaDirectoryEntry) → get_entries (length es) (put_entries es) ≡ some es
unfolding get_entries put_entries
get-put_entries [] = refl
get-put_entries (e ∷ es) = ground (
  arith,
  get-put_bytes e.name (put_child e.node ++ put_entries es),
  get-put_child e.node (put_entries es),
  get-put_entries es,
)

pub put_directory : List CaDirectoryEntry → Bytes
put_directory es = length es ∷ put_entries es

pub get_directory_message : Bytes → Option (List CaDirectoryEntry)
get_directory_message [] = none
get_directory_message (n ∷ bs) = get_entries n bs

get-put_directory :
    (es : List CaDirectoryEntry) → get_directory_message (put_directory es) ≡ some es
unfolding get_directory_message put_directory
get-put_directory es = get-put_entries es

pub codecs : Codecs
codecs = record {
  blake3 = digest_of;
  level = 3;
  compress = λ b. 7 ∷ b;
  decompress = unpack;
  cdc = one_by_one;
  encode = put_directory;
  decode = get_directory_message;
}

first : Bytes → ℕ
first [] = 0
first (b ∷ bs) = b

digest-injective : (a b : Bytes) → digest_of a ≡ digest_of b → a ≡ b
unfolding digest_of first
digest-injective a b h = number-injective a b (ap first h)

unpack-pack : (capacity : ℕ) (x : Bytes) → length x ≤ capacity → unpack capacity (7 ∷ x) ≡ some x
unfolding unpack
unpack-pack capacity x h = ground arith

single : (x : Bytes) → All (λ c. length c ≤ chunk_max) (one_by_one x)
unfolding one_by_one
single [] = tt
single (b ∷ bs) = (omega arith, single bs)

digest_of-length : (x : Bytes) → length (digest_of x) ≡ 32
unfolding digest_of
digest_of-length x = ap suc (length-replicate {A = ℕ} 31 0)

pub codecs-CodecLaws : CodecLaws codecs
unfolding codecs
codecs-CodecLaws = record {
  digest_length = digest_of-length;
  collision_free = digest-injective;
  lossless = unpack-pack;
  chunked = concat-one_by_one;
  chunk_size = single;
  decoded = get-put_directory;
}
