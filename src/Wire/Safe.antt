-- ===== src/Wire/Safe.antt =====
-- Unpacking bytes that need not be those of any message: no access leaves the buffer, nothing is
-- written, and a position past the end stays past it.
pub mod Convert
pub mod Strings
pub mod Fcall
use libixp.Prelude.{
  ℕ, ◌+◌, ◌≤◌, ◌<◌, ◌≡◌, refl, ◌∙◌, inl, inr, some, arith, le_or_lt, ge→ltb, lt→ltb,
}
use libixp.Wire.Msg.{
  Mode, msg_unpack, Msg, M, pure, ◌>>=◌, ◌>>◌, >>=_some, IsValid, with_mode, with_mode_lem,
  when_available, unless_past, skip,
}
use libixp.Wire.Access.{available-eq-true, available-eq-false, skip_room, skip_past}

-- `r` differs from `m` by its position at most.
pub record Same (m r : Msg) : Type 0 where
  pub valid : IsValid r
  pub mode : r.mode ≡ msg_unpack
  pub buf : r.buf ≡ m.buf
  pub end : r.end ≡ m.end
  pub size : r.size ≡ m.size
  pub past : m.end < m.pos → m.end < r.pos

pub record Safe {A : Type 0} (x : M A) : Type 0 where
  pub at :
      (m : Msg)
      → m.mode ≡ msg_unpack
      → IsValid m
      → (a : A) × (r : Msg) × (x m ≡ some (a, r)) × Same m r

pub Safe-pure : {A : Type 0} (a : A) → Safe (pure a)
unfolding pure
Safe-pure a = record {
  at = λ m mode v. (
    a,
    m,
    refl,
    record { valid = v; mode = mode; buf = refl; end = refl; size = refl; past = λ h. h },
  );
}

pub Safe-bind :
    {A B : Type 0} (x : M A) (k : A → M B) → Safe x → ((a : A) → Safe (k a)) → Safe (x >>= k)
Safe-bind x k hx hk = record {
  at = λ m mode v.
      let (a, r, run, p) = hx.at m mode v in
      let (b, s, run', q) = (hk a).at r p.mode p.valid in
      (
        b,
        s,
        >>=_some x k run ∙ run',
        record {
          valid = q.valid;
          mode = q.mode;
          buf = q.buf ∙ p.buf;
          end = q.end ∙ p.end;
          size = q.size ∙ p.size;
          past = λ h. omega (arith, p.past h, p.end, q.past);
        },
      );
}

pub Safe-with_mode : {A : Type 0} (f : Mode → M A) → Safe (f msg_unpack) → Safe (with_mode f)
Safe-with_mode f h = record {
  at = λ m mode v. let (a, r, run, p) = h.at m mode v in (a, r, with_mode_lem f mode ∙ run, p);
}

pub Safe-unless_past : {A : Type 0} (z : A) (x : M A) → Safe x → Safe (unless_past z x)
unfolding unless_past
Safe-unless_past z x h = record {
  at = λ m mode v. elim (le_or_lt m.pos m.end) [
    | inl fits ↦ let (a, r, run, p) = h.at m mode v in (a, r, rw (ge→ltb m.end m.pos fits) run, p)
    | inr over ↦ (
      z,
      m,
      rw (lt→ltb m.end m.pos over),
      record { valid = v; mode = mode; buf = refl; end = refl; size = refl; past = λ h. h },
    )
  ];
}

-- Bytes read under `available` and then skipped, as ixp_puint and ixp_pdata do.
pub Safe-block :
    {A : Type 0} (n : ℕ) (x y : M A)
    → ((m : Msg)
        → m.mode ≡ msg_unpack
        → IsValid m
        → m.pos + n ≤ m.end
        → (a : A) × (x m ≡ some (a, m)))
    → ((m : Msg) → (a : A) × (y m ≡ some (a, m)))
    → Safe (when_available n x y >>= λ v. skip n >> pure v)
unfolding when_available pure
Safe-block n x y reads skips = record {
  at = λ m mode v. elim (le_or_lt (m.pos + n) m.end) [
    | inl room ↦
        let (a, e) = reads m mode v room in
        (
          a,
          record m { pos = m.pos + n },
          >>=_some (when_available n x y) _ (rw (available-eq-true m n v room) e)
              ∙ >>=_some (skip n) _ (skip_room m n v room),
          record {
            valid = record {
              width = v.width;
              fits = v.fits;
              bounded = v.bounded;
              near = omega arith;
            };
            mode = mode;
            buf = refl;
            end = refl;
            size = refl;
            past = λ h. omega arith;
          },
        )
    | inr over ↦
        let (a, e) = skips m in
        (
          a,
          record m { pos = m.end + 1 },
          >>=_some (when_available n x y) _ (rw (available-eq-false m n v over) e)
              ∙ >>=_some (skip n) _ (skip_past m n v over),
          record {
            valid = record {
              width = v.width;
              fits = v.fits;
              bounded = v.bounded;
              near = omega arith;
            };
            mode = mode;
            buf = refl;
            end = refl;
            size = refl;
            past = λ h. omega arith;
          },
        )
  ];
}
