-- ===== src/Wire/Packs.antt =====
-- What a routine writes, and how it tells that the bytes did not fit.
pub mod Convert
pub mod Entry
pub mod Arrays
pub mod Fcall
use mathlib.Core.Path.{subst}
use libixp.Prelude.{
  ℕ, ◌+◌, ◌≤◌, ◌<◌, ◌≡◌, refl, sym, ap, ◌∙◌, ◌⊎◌, inl, inr, List, [], ◌++◌, some, arith, length,
  take, overwrite, length-append, length-overwrite, take-overwrite, append_assoc, append-nil,
  ge→ltb, lt→ltb, le_or_lt,
}
use libixp.Wire.Msg.{
  Mode, msg_pack, Msg, M, pure, ◌>>=◌, ◌>>◌, >>=_some, IsValid, with_mode, with_mode_lem,
  when_available, unless_past, skip,
}
use libixp.Wire.Access.{available-eq-true, available-eq-false, skip_room, skip_past}

-- From `m` to `r` the bytes `bs` were written at the position, or the position is past the end.
pub record Packed (m r : Msg) (bs : List ℕ) : Type 0 where
  pub valid : IsValid r
  pub mode : r.mode ≡ msg_pack
  pub end : r.end ≡ m.end
  pub size : r.size ≡ m.size
  pub written :
      m.pos + length bs ≤ m.end
      → (r.pos ≡ m.pos + length bs) × (take r.pos r.buf ≡ take m.pos m.buf ++ bs)
  pub past : m.end < m.pos + length bs → m.end < r.pos

pub record Packs {A : Type 0} (x : M A) (bs : List ℕ) (a : A) : Type 0 where
  pub at :
      (m : Msg) → m.mode ≡ msg_pack → IsValid m → (r : Msg) × (x m ≡ some (a, r)) × Packed m r bs

pub Packs-pure : {A : Type 0} (a : A) → Packs (pure a) [] a
unfolding pure
Packs-pure a = record {
  at = λ m mode v. (
    m,
    refl,
    record {
      valid = v;
      mode = mode;
      end = refl;
      size = refl;
      written = λ h. (omega arith, sym (append-nil (take m.pos m.buf)));
      past = λ h. omega arith;
    },
  );
}

Packed-trans :
    {m r s : Msg} (bs cs : List ℕ) → Packed m r bs → Packed r s cs → Packed m s (bs ++ cs)
Packed-trans {m} {r} {s} bs cs p q = record {
  valid = q.valid;
  mode = q.mode;
  end = q.end ∙ p.end;
  size = q.size ∙ p.size;
  written = λ h.
      let (at, front) = p.written (omega (arith, length-append bs cs)) in
      let (at', front') = q.written (omega (arith, length-append bs cs, p.end)) in
      (
        omega (arith, length-append bs cs),
        front' ∙ ap (λ l. l ++ cs) front ∙ append_assoc (take m.pos m.buf) bs cs,
      );
  past = λ h. elim (le_or_lt (m.pos + length bs) m.end) [
    | inl fits ↦
        let (at, front) = p.written fits in
        let h' : r.end < r.pos + length cs = omega (arith, length-append bs cs, p.end) in
        omega (arith, q.past h', p.end)
    | inr over ↦
        let h' : r.end < r.pos + length cs = omega (arith, p.past over, p.end) in
        omega (arith, q.past h', p.end)
  ];
}

pub Packs-bind :
    {A B : Type 0} (x : M A) (k : A → M B) {bs cs : List ℕ} {a : A} {b : B}
    → Packs x bs a
    → Packs (k a) cs b
    → Packs (x >>= k) (bs ++ cs) b
Packs-bind x k {bs} {cs} hx hk = record {
  at = λ m mode v.
      let (r, run, p) = hx.at m mode v in
      let (s, run', q) = hk.at r p.mode p.valid in
      (s, >>=_some x k run ∙ run', Packed-trans bs cs p q);
}

pub Packs-congr :
    {A : Type 0} {x : M A} {bs cs : List ℕ} {a : A} → bs ≡ cs → Packs x bs a → Packs x cs a
Packs-congr {x} {a} e h = subst (λ l. Packs x l a) e h

pub Packs-with_mode :
    {A : Type 0} (f : Mode → M A) {bs : List ℕ} {a : A}
    → Packs (f msg_pack) bs a
    → Packs (with_mode f) bs a
Packs-with_mode f h = record {
  at = λ m mode v. let (r, run, p) = h.at m mode v in (r, with_mode_lem f mode ∙ run, p);
}

-- The early return leaves the position past the end.
pub Packs-unless_past :
    {A : Type 0} (z : A) {x : M A} {bs : List ℕ} → Packs x bs z → Packs (unless_past z x) bs z
unfolding unless_past
Packs-unless_past z h = record {
  at = λ m mode v. elim (le_or_lt m.pos m.end) [
    | inl fits ↦ let (r, run, p) = h.at m mode v in (r, rw (ge→ltb m.end m.pos fits) run, p)
    | inr over ↦ (
      m,
      rw (lt→ltb m.end m.pos over),
      record {
        valid = v;
        mode = mode;
        end = refl;
        size = refl;
        written = λ h. absurd (omega arith);
        past = λ h. over;
      },
    )
  ];
}

-- Bytes written under `available` and then skipped, as ixp_puint and ixp_pdata do.
pub block_room :
    {A : Type 0} (n : ℕ) (x y : M A) (bs : List ℕ) (a : A) (m : Msg)
    → n ≡ length bs
    → IsValid m
    → m.pos + n ≤ m.end
    → x m ≡ some (a, record m { buf = overwrite m.pos bs m.buf })
    → (when_available n x y >>= λ v. skip n >> pure v) m
      ≡ some (a, record m { buf = overwrite m.pos bs m.buf; pos = m.pos + n })
unfolding when_available pure
block_room n x y bs a m len v room writes =
    let v' : IsValid (record m { buf = overwrite m.pos bs m.buf }) = record {
      width = length-overwrite m.pos bs m.buf ∙ v.width;
      fits = v.fits;
      bounded = v.bounded;
      near = v.near;
    } in
    >>=_some (when_available n x y) _ (rw (available-eq-true m n v room) writes)
    ∙ >>=_some (skip n) _ (skip_room (record m { buf = overwrite m.pos bs m.buf }) n v' room)

pub Packs-block :
    {A : Type 0} (n : ℕ) (x y : M A) (bs : List ℕ) (a : A)
    → n ≡ length bs
    → ((m : Msg)
        → m.mode ≡ msg_pack
        → m.pos + length bs ≤ length m.buf
        → x m ≡ some (a, record m { buf = overwrite m.pos bs m.buf }))
    → ((m : Msg) → y m ≡ some (a, m))
    → Packs (when_available n x y >>= λ v. skip n >> pure v) bs a
unfolding when_available pure
Packs-block n x y bs a len writes skips = record {
  at = λ m mode v. elim (le_or_lt (m.pos + n) m.end) [
    | inl room ↦
        let inside : m.pos + length bs ≤ length m.buf = omega (arith, v.width, v.bounded) in
        (
          record m { buf = overwrite m.pos bs m.buf; pos = m.pos + n },
          block_room n x y bs a m len v room (writes m mode inside),
          record {
            valid = record {
              width = length-overwrite m.pos bs m.buf ∙ v.width;
              fits = v.fits;
              bounded = v.bounded;
              near = omega arith;
            };
            mode = mode;
            end = refl;
            size = refl;
            written = λ h. (
              omega arith,
              take-overwrite m.pos (m.pos + n) bs m.buf (omega arith)
                  (omega (arith, v.width, v.bounded)),
            );
            past = λ h. absurd (omega arith);
          },
        )
    | inr over ↦ (
      record m { pos = m.end + 1 },
      >>=_some (when_available n x y) _ (rw (available-eq-false m n v over) (skips m))
          ∙ >>=_some (skip n) _ (skip_past m n v over),
      record {
        valid = record { width = v.width; fits = v.fits; bounded = v.bounded; near = omega arith };
        mode = mode;
        end = refl;
        size = refl;
        written = λ h. absurd (omega arith);
        past = λ h. omega arith;
      },
    )
  ];
}
