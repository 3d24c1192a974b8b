-- ===== src/Wire/Format.antt =====
-- The wire format of 9P, independent of the code: little-endian numbers, counted strings.
use libixp.Prelude.{
  ℕ, zero, suc, ◌/◌, ◌%◌, ◌+◌, ◌^◌, ◌<◌, ◌≡◌, refl, List, [], ◌∷◌, ◌++◌, arith, length, concat, All,
}
use libixp.Wire.Types.{Qid, Stat}

-- `v` in `n` bytes, the lowest first
unfoldable pub le_bytes : ℕ → ℕ → List ℕ
le_bytes zero v = []
le_bytes (suc n) v = v % 256 ∷ le_bytes n (v / 256)

abbrev pub format_string : List ℕ → List ℕ
format_string s = le_bytes 2 (length s) ++ s

-- The first `n` strings of an array.
abbrev pub format_strings : ℕ → List (List ℕ) → List ℕ
format_strings zero ss = []
format_strings (suc n) [] = []
format_strings (suc n) (s ∷ ss) = format_string s ++ format_strings n ss

abbrev pub format_qid : Qid → List ℕ
format_qid q = concat (le_bytes 1 q.type ∷ le_bytes 4 q.version ∷ le_bytes 8 q.path ∷ [])

abbrev pub format_qids : ℕ → List Qid → List ℕ
format_qids zero qs = []
format_qids (suc n) [] = []
format_qids (suc n) (q ∷ qs) = format_qid q ++ format_qids n qs

-- The entry of a directory, without its size.
abbrev pub format_entry : Stat → List ℕ
format_entry s = concat (
    le_bytes 2 s.type
    ∷ le_bytes 4 s.dev
    ∷ format_qid s.qid
    ∷ le_bytes 4 s.mode
    ∷ le_bytes 4 s.atime
    ∷ le_bytes 4 s.mtime
    ∷ le_bytes 8 s.length
    ∷ format_string s.name
    ∷ format_string s.uid
    ∷ format_string s.gid
    ∷ format_string s.muid
    ∷ [])

-- The entry after its size in bytes.
abbrev pub format_stat : Stat → List ℕ
format_stat s = le_bytes 2 (length (format_entry s)) ++ format_entry s

-- A string that the format carries: no nul, and a length of 16 bits.
abbrev pub IsChar : ℕ → Type 0
IsChar c = (0 < c) × (c < 256)

pub record IsString (s : List ℕ) : Type 0 where
  pub chars : All IsChar s
  pub short : length s < 2 ^ 16

pub record IsQid (q : Qid) : Type 0 where
  pub type : q.type < 2 ^ 8
  pub version : q.version < 2 ^ 32
  pub path : q.path < 2 ^ 64

pub record IsStat (s : Stat) : Type 0 where
  pub type : s.type < 2 ^ 16
  pub dev : s.dev < 2 ^ 32
  pub qid : IsQid s.qid
  pub mode : s.mode < 2 ^ 32
  pub atime : s.atime < 2 ^ 32
  pub mtime : s.mtime < 2 ^ 32
  pub len : s.length < 2 ^ 64
  pub name : IsString s.name
  pub uid : IsString s.uid
  pub gid : IsString s.gid
  pub muid : IsString s.muid
  pub small : length (format_entry s) + 2 < 2 ^ 16

pub length-le_bytes : (n v : ℕ) → length (le_bytes n v) ≡ n
unfolding le_bytes
length-le_bytes zero v = refl
length-le_bytes (suc n) v = omega (arith, length-le_bytes n (v / 256))
