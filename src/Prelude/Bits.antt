-- ===== src/Prelude/Bits.antt =====
-- `|` of disjoint fields as a sum, at every width, from the digits that the operation stands for.
use Prim.Native.Nat.{
  ℕ, zero, suc, ◌+◌, ◌*◌, ◌/◌, ◌%◌, ◌^◌, ◌≤◌, ◌<◌, max, bit_or, digits, bit_or-bitwise,
}
use mathlib.Core.Path.{◌≡◌, refl, ap}
use native.Mathlib.Nat.{pow-suc}
use native.Mathlib.Omega.{arith}

abbrev joined : ℕ → ℕ → ℕ → ℕ
joined fuel y x = digits (λ d. d) max fuel x y

-- Any two amounts of fuel that reach the left operand agree.
joined_stable : (x y : ℕ) {f g : ℕ} → (x ≤ f) × (x ≤ g) → joined f y x ≡ joined g y x
joined_stable zero y {f = suc f} {g = suc g} h = refl
joined_stable zero y {f = suc f} {g = zero} h = refl
joined_stable zero y {f = zero} {g = suc g} h = refl
joined_stable zero y {f = zero} {g = zero} h = refl
joined_stable (suc x) y {f = zero} {g} h = absurd (omega arith)
joined_stable (suc x) y {f = suc f} {g = zero} h = absurd (omega arith)
joined_stable (suc x) y {f = suc f} {g = suc g} h =
    let below : suc x / 2 ≤ x = omega arith in
    let ih : joined f (y / 2) (suc x / 2) ≡ joined g (y / 2) (suc x / 2) =
      joined_stable (suc x / 2) (y / 2) {f = f} {g = g} (omega arith, omega arith) in
    ap (λ k. k * 2 + max (suc x % 2) (y % 2)) ih

none_left : (y : ℕ) → bit_or 0 y ≡ y
none_left y = bit_or-bitwise 0 y

-- The lowest digit of the result is decided by the lowest digits of the operands.
lowest_digit : (x y : ℕ) → bit_or x y ≡ 2 * bit_or (x / 2) (y / 2) + max (x % 2) (y % 2)
lowest_digit zero y = omega (arith, none_left (y / 2), none_left y)
lowest_digit (suc x) y =
    let h = suc x / 2 in
    let same : joined x (y / 2) h ≡ joined h (y / 2) h =
      joined_stable h (y / 2) {f = x} {g = h} (omega arith, omega arith) in
    omega (arith, same, bit_or-bitwise h (y / 2), bit_or-bitwise (suc x) y)

none_right : (bound x : ℕ) → x < bound → bit_or x 0 ≡ x
none_right zero x h = absurd (omega arith)
none_right (suc bound) zero h = none_left 0
none_right (suc bound) (suc x) h =
    let shorter : suc x / 2 < bound = omega arith in
    omega (arith, none_right bound (suc x / 2) shorter, lowest_digit (suc x) 0)

-- A field of `k` bits beside one that is shifted by `k`, in either order.
fields :
    (k high low : ℕ)
    → low < 2 ^ k
    → (bit_or (high * 2 ^ k) low ≡ high * 2 ^ k + low)
      × (bit_or low (high * 2 ^ k) ≡ high * 2 ^ k + low)
fields zero high low h =
    let e : low ≡ 0 = omega arith in ground (arith, e, none_right (suc high) high, none_left high)
fields (suc k) high low h =
    let double : high * 2 ^ suc k ≡ 2 * (high * 2 ^ k) =
      omega (arith, ap (λ (t : ℕ). high * t) (pow-suc 2 k)) in
    let (left, right) = fields k high (low / 2) (omega (arith, pow-suc 2 k)) in
    (
      ground (arith, double, left, lowest_digit (high * 2 ^ suc k) low),
      ground (arith, double, right, lowest_digit low (high * 2 ^ suc k)),
    )

pub bit_or_high : (k q r : ℕ) → r < 2 ^ k → bit_or (q * 2 ^ k) r ≡ q * 2 ^ k + r
bit_or_high k q r h = (fields k q r h).0

pub bit_or_low : (k q r : ℕ) → r < 2 ^ k → bit_or r (q * 2 ^ k) ≡ q * 2 ^ k + r
bit_or_low k q r h = (fields k q r h).1
