-- ===== src/Tokens.antt =====
-- lib/libixp/util.c: ixp_tokenize. A token is a pointer into the string, here its offset; the string is
-- the bytes before its nul, and the nuls that the loop writes are in the result.
pub mod Words
mod Tests
use libixp.Prelude.{
  ℕ, zero, suc, ◌+◌, ◌-◌, Bool, List, [], ◌∷◌, Option, none, some, ◌==◌, if◌then◌else◌,
}

-- The tokens, by their offsets, and the string after the call.
pub record Tokenized : Type 0 where
  pub tokens : List ℕ
  pub str : List ℕ

abbrev pub keep : ℕ → Tokenized → Tokenized
keep c r = record r { str = c ∷ r.str }

abbrev pub token : ℕ → Tokenized → Tokenized
token i r = record r { tokens = i ∷ r.tokens }

unfoldable mutual
  -- `while(*s == delim) *(s++) = 0`, and the token that begins where it stops; `left` is
  -- `reslen - i`, which is not 0, and `at` is `s - str`.
  pub skip_delims : ℕ → ℕ → ℕ → List ℕ → Tokenized
  skip_delims delim left at [] = record { tokens = []; str = [] }
  skip_delims delim left at (c ∷ s) =
      let skip = keep 0 (skip_delims delim left (suc at) s) in
      let start = token at (keep c (pass_token delim (left - 1) (suc at) s)) in
      if c == delim then skip else start

  -- `while(*s && *s != delim) s++`, and the test of the outer loop
  pub pass_token : ℕ → ℕ → ℕ → List ℕ → Tokenized
  pass_token delim left at [] = record { tokens = []; str = [] }
  pass_token delim left at (c ∷ s) =
      let more = keep 0 (skip_delims delim left (suc at) s) in
      let stop : Tokenized = record { tokens = []; str = c ∷ s } in
      let pass = keep c (pass_token delim left (suc at) s) in
      if c == delim then if left == 0 then stop else more else pass

unfoldable pub ixp_tokenize : ℕ → List ℕ → ℕ → Tokenized
unfolding skip_delims
ixp_tokenize reslen str delim =
    if reslen == 0 then record { tokens = []; str = str } else skip_delims delim reslen 0 str
