-- ===== src/Tokens/Tests.antt =====
-- Concrete paths, split at '/'.
use libixp.Prelude.{◌≡◌, refl, [], ◌∷◌, arith}
use libixp.Ctl.{c_string}
use libixp.Tokens.{skip_delims, ixp_tokenize}
use libixp.Tokens.Words.{texts, fields, tokenize-fields}

-- "/ab//c" in room for three.
three_slots :
    ixp_tokenize 3 (b'/' ∷ b'a' ∷ b'b' ∷ b'/' ∷ b'/' ∷ b'c' ∷ []) b'/'
    ≡ record { tokens = 1 ∷ 5 ∷ []; str = 0 ∷ b'a' ∷ b'b' ∷ 0 ∷ 0 ∷ b'c' ∷ [] }
unfolding ixp_tokenize skip_delims
three_slots = refl

-- "a/b/c" in room for two: the last token is not ended at the delimiter.
two_slots :
    texts (ixp_tokenize 2 (b'a' ∷ b'/' ∷ b'b' ∷ b'/' ∷ b'c' ∷ []) b'/')
    ≡ (b'a' ∷ []) ∷ (b'b' ∷ b'/' ∷ b'c' ∷ []) ∷ []
unfolding ixp_tokenize skip_delims c_string
two_slots = refl

tokenize-fields_example :
    texts (ixp_tokenize 3 (b'/' ∷ b'a' ∷ b'/' ∷ b'c' ∷ []) b'/')
    ≡ fields b'/' (b'/' ∷ b'a' ∷ b'/' ∷ b'c' ∷ [])
tokenize-fields_example =
    tokenize-fields 3 b'/' (b'/' ∷ b'a' ∷ b'/' ∷ b'c' ∷ []) (omega arith) (omega arith)
