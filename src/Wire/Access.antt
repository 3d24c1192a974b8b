-- ===== src/Wire/Access.antt =====
-- The accesses of Wire.Msg on a valid message: when they are made, and what they yield.
use libixp.Prelude.{
  ℕ, ◌+◌, ◌≤◌, ◌<◌, ◌≡◌, ap, ◌∙◌, true, false, List, ◌++◌, some, arith, length, take, drop,
  overwrite, take-append_length, le→leb,
}
use libixp.Wire.Msg.{Msg, IsValid, available, skip, read_bytes, write_bytes, source}

pub available-eq-true : (m : Msg) (n : ℕ) → IsValid m → m.pos + n ≤ m.end → available m n ≡ true
unfolding available
available-eq-true m n v h = ground (arith, v.width, v.fits, v.bounded)

pub available-eq-false : (m : Msg) (n : ℕ) → IsValid m → m.end < m.pos + n → available m n ≡ false
unfolding available
available-eq-false m n v h = ground (arith, v.width, v.fits, v.bounded)

pub skip_room :
    (m : Msg) (n : ℕ)
    → IsValid m
    → m.pos + n ≤ m.end
    → skip n m ≡ some (tt, record m { pos = m.pos + n })
unfolding skip
skip_room m n v h = rw (available-eq-true m n v h)

pub skip_past :
    (m : Msg) (n : ℕ)
    → IsValid m
    → m.end < m.pos + n
    → skip n m ≡ some (tt, record m { pos = m.end + 1 })
unfolding skip
skip_past m n v h = rw (available-eq-false m n v h)

pub read_bytes_room :
    (m : Msg) (n : ℕ)
    → m.pos + n ≤ length m.buf
    → read_bytes n m ≡ some (take n (drop m.pos m.buf), m)
unfolding read_bytes
read_bytes_room m n h = rw (le→leb _ _ h)

pub read_bytes_front :
    (m : Msg) (bs rest : List ℕ)
    → IsValid m
    → drop m.pos m.buf ≡ bs ++ rest
    → m.pos + length bs ≤ m.end
    → read_bytes (length bs) m ≡ some (bs, m)
read_bytes_front m bs rest v e h =
    read_bytes_room m (length bs) (omega (arith, v.width, v.bounded))
    ∙ rw e (ap (λ l. some (l, m)) (take-append_length bs rest))

pub write_bytes_room :
    (m : Msg) (bs : List ℕ)
    → m.pos + length bs ≤ length m.buf
    → write_bytes bs m ≡ some (tt, record m { buf = overwrite m.pos bs m.buf })
unfolding write_bytes
write_bytes_room m bs h = rw (le→leb _ _ h)

pub source_room :
    (m : Msg) (n : ℕ) (bs : List ℕ) → n ≤ length bs → source n bs m ≡ some (take n bs, m)
unfolding source
source_room m n bs h = rw (le→leb _ _ h)
