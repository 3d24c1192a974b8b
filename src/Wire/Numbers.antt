-- ===== src/Wire/Numbers.antt =====
-- The switches of ixp_puint against the little-endian format.
use libixp.Prelude.{ℕ, ◌/◌, ◌%◌, ◌*◌, ◌+◌, ◌^◌, ◌<◌, ◌≡◌, refl, ◌∙◌, bit_or, ◌++◌, arith, ◌≢◌}
use libixp.Prelude.Bits.{bit_or_high, bit_or_low}
use libixp.Wire.Convert.{Width, s_byte, s_word, s_dword, s_qword, width, store, load}
use libixp.Wire.Format.{le_bytes}

pub store-eq-le_bytes : (w : Width) (v : ℕ) → w ≢ s_qword → store w v ≡ le_bytes (width w) v
unfolding store le_bytes
store-eq-le_bytes s_byte v h = refl
store-eq-le_bytes s_word v h = ground arith
store-eq-le_bytes s_dword v h = ground arith
store-eq-le_bytes s_qword v h = absurd (h refl)

word_of_bytes : (v : ℕ) → v < 2 ^ 16 → bit_or (v / 256 % 256 * 2 ^ 8) (v % 256) ≡ v
word_of_bytes v h = omega (arith, bit_or_high 8 (v / 256 % 256) (v % 256) (omega arith))

dword_of_bytes :
    (a b c d : ℕ)
    → a < 256
    → b < 256
    → c < 256
    → bit_or (bit_or (bit_or (d * 2 ^ 24) (c * 2 ^ 16)) (b * 2 ^ 8)) a
      ≡ d * 2 ^ 24 + c * 2 ^ 16 + b * 2 ^ 8 + a
dword_of_bytes a b c d ha hb hc =
    let e1 : bit_or (d * 2 ^ 24) (c * 2 ^ 16) ≡ (d * 2 ^ 8 + c) * 2 ^ 16 =
      omega (arith, bit_or_high 24 d (c * 2 ^ 16) (omega arith)) in
    let e2 : bit_or ((d * 2 ^ 8 + c) * 2 ^ 16) (b * 2 ^ 8) ≡ ((d * 2 ^ 8 + c) * 2 ^ 8 + b) * 2 ^ 8 =
      omega (arith, bit_or_high 16 (d * 2 ^ 8 + c) (b * 2 ^ 8) (omega arith)) in
    let e3 : bit_or (((d * 2 ^ 8 + c) * 2 ^ 8 + b) * 2 ^ 8) a
        ≡ ((d * 2 ^ 8 + c) * 2 ^ 8 + b) * 2 ^ 8 + a =
      bit_or_high 8 ((d * 2 ^ 8 + c) * 2 ^ 8 + b) a ha in
    rw (e1, e2, e3) (omega arith)

pub load-le_bytes :
    (w : Width) (v : ℕ) → w ≢ s_qword → v < 256 ^ width w → load w (le_bytes (width w) v) ≡ v
unfolding load le_bytes
load-le_bytes s_byte v h lt = omega arith
load-le_bytes s_word v h lt = word_of_bytes v lt
load-le_bytes s_dword v h lt =
    dword_of_bytes (v % 256) (v / 256 % 256) (v / 256 / 256 % 256) (v / 256 / 256 / 256 % 256)
      (omega arith) (omega arith) (omega arith)
    ∙ omega arith
load-le_bytes s_qword v h lt = absurd (h refl)

-- The halves of ixp_pu64.
pub low_high : (v : ℕ) → v < 2 ^ 64 → bit_or (v % 2 ^ 32) (v / 2 ^ 32 % 2 ^ 32 * 2 ^ 32) ≡ v
low_high v h = omega (arith, bit_or_low 32 (v / 2 ^ 32 % 2 ^ 32) (v % 2 ^ 32) (omega arith))

pub le_bytes_halves :
    (v : ℕ) → le_bytes 8 v ≡ le_bytes 4 (v % 2 ^ 32) ++ (le_bytes 4 (v / 2 ^ 32 % 2 ^ 32))
unfolding le_bytes
le_bytes_halves v = ground arith
