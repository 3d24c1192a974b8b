-- ===== src/Wire/Msg.antt =====
-- IxpMsg (include/ixp.h) and the accesses that lib/libixp/convert.c makes to its buffer.
use libixp.Prelude.{
  ℕ, ◌+◌, ◌-◌, ◌%◌, ◌^◌, ◌≤◌, ◌<◌, ◌≡◌, ap, Bool, ◌&&◌, List, Option, none, some, length, take,
  drop, overwrite, leb, ltb, if◌then◌else◌,
}

pub data Mode : Type 0 where
  msg_pack msg_unpack : Mode

-- `buf` is the allocation at `data`; `pos` and `end` are offsets from its start.
pub record Msg : Type 0 where
  pub buf : List ℕ
  pub pos : ℕ
  pub end : ℕ
  pub size : ℕ
  pub mode : Mode

-- ixp_message; the buffer is `length` bytes long.
unfoldable pub ixp_message : List ℕ → ℕ → Mode → Msg
ixp_message buf n mode = record { buf = buf; pos = 0; end = n; size = n; mode = mode }

-- A routine on the message being packed or unpacked. `none` is an access outside an allocation.
abbrev pub M : Type 0 → Type 0
M A = Msg → Option (A × Msg)

unfoldable pub pure : {A : Type 0} → A → M A
pure a m = some (a, m)

unfoldable pub fault : {A : Type 0} → M A
fault m = none

infixl 5 ◌>>=◌ ◌>>◌
unfoldable pub ◌>>=◌ : {A B : Type 0} → M A → (A → M B) → M B
◌>>=◌ x k m = elim (x m) [ none ↦ none | some (a, m') ↦ k a m' ]

abbrev pub ◌>>◌ : {B : Type 0} → M (Unit {0}) → M B → M B
x >> k = x >>= λ _. k

pub >>=_some :
    {A B : Type 0} (x : M A) (k : A → M B) {m m' : Msg} {a : A}
    → x m ≡ some (a, m')
    → (x >>= k) m ≡ k a m'
unfolding ◌>>=◌
>>=_some x k e = rw (e, ◌>>=◌)

-- `msg->mode` and `msg->pos`
unfoldable pub with_mode : {A : Type 0} → (Mode → M A) → M A
with_mode f m = f m.mode m

pub with_mode_lem :
    {A : Type 0} (f : Mode → M A) {m : Msg} {c : Mode} → m.mode ≡ c → with_mode f m ≡ f c m
unfolding with_mode
with_mode_lem f {m} e = ap (λ c. f c m) e

unfoldable pub here : M ℕ
here m = some (m.pos, m)

-- available: the difference is cast to `uint`.
unfoldable pub available : Msg → ℕ → Bool
available m size = leb m.pos m.end && leb size ((m.end - m.pos) % 2 ^ 32)

-- `if(available(msg, n)) x else y`
unfoldable pub when_available : {A : Type 0} → ℕ → M A → M A → M A
when_available n x y m = if available m n then x m else y m

-- `if(msg->pos > msg->end) return`, and what follows it
unfoldable pub unless_past : {A : Type 0} → A → M A → M A
unless_past a rest m = if ltb m.end m.pos then some (a, m) else rest m

-- skip
unfoldable pub skip : ℕ → M Unit
unfolding available
skip size m = some (tt, record m { pos = if available m size then m.pos + size else m.end + 1 })

-- memcpy from `pos`
unfoldable pub read_bytes : ℕ → M (List ℕ)
read_bytes n m =
    if leb (m.pos + n) (length m.buf) then some (take n (drop m.pos m.buf), m) else none

-- memcpy to `pos`
unfoldable pub write_bytes : List ℕ → M Unit
write_bytes bs m =
    if leb (m.pos + length bs) (length m.buf)
    then some (tt, record m { buf = overwrite m.pos bs m.buf })
    else none

-- memcpy from the first `n` bytes of a caller's buffer
unfoldable pub source : ℕ → List ℕ → M (List ℕ)
source n bs m = if leb n (length bs) then some (take n bs, m) else none

-- The buffer is `size` bytes, a `uint`, and `pos` is at most one past `end`.
pub record IsValid (m : Msg) : Type 0 where
  pub width : length m.buf ≡ m.size
  pub fits : m.size < 2 ^ 32
  pub bounded : m.end ≤ m.size
  pub near : m.pos ≤ m.end + 1
