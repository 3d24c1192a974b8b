-- ===== src/Wire/Safe/Strings.antt =====
-- ixp_pstrings (lib/libixp/convert.c) on any bytes: pass two checks nothing, and stays within the
-- bytes and the allocation that pass one has measured.
use libixp.Prelude.{
  ℕ, zero, suc, ◌+◌, ◌*◌, ◌-◌, ◌%◌, ◌^◌, ◌≤◌, ◌<◌, ◌≡◌, refl, sym, ap, ◌∙◌, List, [], ◌∷◌, arith,
  length, take, drop, Option, none, some, inl, inr, le_or_lt, ge→ltb, lt→ltb, le→leb,
}
use libixp.Wire.Msg.{
  Msg, msg_unpack, pure, >>=_some, IsValid, with_mode, with_mode_lem, when_available, read_bytes,
  skip, here, unless_past,
}
use libixp.Wire.Access.{
  read_bytes_room, available-eq-true, available-eq-false, skip_room, skip_past,
}
use libixp.Wire.Convert.{
  s_word, load, transfer, ixp_puint, ixp_pu16, measure, rewind, seek, claim, unpack_strings,
  unpack_measured, strings_passes, ixp_pstrings,
}
use libixp.Wire.Safe.{Safe, Safe-bind, Safe-unless_past, Same}
use libixp.Wire.Safe.Convert.{Safe-pu16, Safe-unless_more}

-- The 16-bit number at the position.
abbrev word_at : Msg → ℕ
word_at m = load s_word (take 2 (drop m.pos m.buf)) % 2 ^ 16

pu16_room :
    (v : ℕ) (m : Msg)
    → m.mode ≡ msg_unpack
    → IsValid m
    → m.pos + 2 ≤ m.end
    → ixp_pu16 v m ≡ some (word_at m, record m { pos = m.pos + 2 })
unfolding ixp_pu16 ixp_puint when_available transfer pure
pu16_room v m mode valid room = >>=_some (ixp_puint s_word v) _ (
    >>=_some (when_available 2 (with_mode λ c. transfer c s_word v) (pure v)) _ (
      rw (available-eq-true m 2 valid room) (
        with_mode_lem (λ c. transfer c s_word v) mode
        ∙ >>=_some (read_bytes 2) _
            (read_bytes_room m 2 (omega (arith, valid.width, valid.bounded)))))
    ∙ >>=_some (skip 2) _ (skip_room m 2 valid room))

pu16_past :
    (v : ℕ) (m : Msg)
    → m.mode ≡ msg_unpack
    → IsValid m
    → m.end < m.pos + 2
    → ixp_pu16 v m ≡ some (v % 2 ^ 16, record m { pos = m.end + 1 })
unfolding ixp_pu16 ixp_puint when_available pure
pu16_past v m mode valid over = >>=_some (ixp_puint s_word v) _ (
    >>=_some (when_available 2 (with_mode λ c. transfer c s_word v) (pure v)) _
      (rw (available-eq-false m 2 valid over))
    ∙ >>=_some (skip 2) _ (skip_past m 2 valid over))

-- Pass one met the end, or counted strings that pass two copies into `room` bytes.
data Measured (n size : ℕ) (m : Msg) (o : Option (Option (ℕ × ℕ) × Msg)) : Type 0 where
  stopped : (r : Msg) → o ≡ some (none, r) → Same m r → Measured n size m o
  counted :
      (size' last : ℕ) (r : Msg)
      → o ≡ some (some (size', last), r)
      → Same m r
      → size ≤ size'
      → size' ≤ size + n * 2 ^ 16
      → ((room len : ℕ) (old : List (List ℕ))
          → n ≤ length old
          → size' + n ≤ size + room
          → (a : List (List ℕ)) × (unpack_strings n room len old m ≡ some (a, r)))
      → Measured n size m o

moved :
    (m : Msg) (p : ℕ)
    → m.mode ≡ msg_unpack
    → IsValid m
    → p ≤ m.end + 1
    → (m.end < m.pos → m.end < p)
    → Same m (record m { pos = p })
moved m p mode v near past = record {
  valid = record { width = v.width; fits = v.fits; bounded = v.bounded; near = near };
  mode = mode;
  buf = refl;
  end = refl;
  size = refl;
  past = past;
}

Same-trans : {m r s : Msg} → Same m r → Same r s → Same m s
Same-trans p q = record {
  valid = q.valid;
  mode = q.mode;
  buf = q.buf ∙ p.buf;
  end = q.end ∙ p.end;
  size = q.size ∙ p.size;
  past = λ h. omega (arith, p.past h, p.end, q.past);
}

word_at-lt : (m : Msg) → word_at m < 2 ^ 16
word_at-lt m = omega arith

-- One string of pass two, of `len` bytes that are there and have room.
unpack_strings_step :
    (n room len : ℕ) (o : List ℕ) (old : List (List ℕ)) (m : Msg)
    → m.mode ≡ msg_unpack
    → IsValid m
    → m.pos + 2 + word_at m ≤ m.end
    → word_at m + 1 ≤ room
    → (a : List (List ℕ)) (r : Msg)
    → unpack_strings n
        (room - (word_at m + 1))
        (word_at m)
        old
        (record m { pos = m.pos + 2 + word_at m })
      ≡ some (a, r)
    → (b : List (List ℕ)) × (unpack_strings (suc n) room len (o ∷ old) m ≡ some (b, r))
unfolding unpack_strings claim seek pure
unpack_strings_step n room len o old m mode v inside enough a r run =
    let l = word_at m in
    let m1 : Msg = record m { pos = m.pos + 2 } in
    let s = take l (drop (m.pos + 2) m.buf) in
    (
      s ∷ a,
      >>=_some (ixp_pu16 len) _ (pu16_room len m mode v (omega arith))
          ∙ >>=_some (read_bytes l) _ (read_bytes_room m1 l (omega (arith, v.width, v.bounded)))
          ∙ >>=_some (claim room (l + 1)) _ (rw (le→leb _ _ enough))
          ∙ >>=_some (seek l) _ refl
          ∙ >>=_some (unpack_strings n (room - (l + 1)) l old) _ run,
    )

unpack_strings_more :
    (n size len0 size' : ℕ) (m r : Msg)
    → m.mode ≡ msg_unpack
    → IsValid m
    → m.pos + 2 + word_at m ≤ m.end
    → size + word_at m ≤ size'
    → ((room len : ℕ) (old : List (List ℕ))
        → n ≤ length old
        → size' + n ≤ size + word_at m + room
        → (a : List (List ℕ)) × (unpack_strings n room len old
              (record m { pos = m.pos + 2 + word_at m })
            ≡ some (a, r)))
    → (room len : ℕ) (old : List (List ℕ)) → suc n ≤ length old
    → size' + suc n ≤ size + room
    → (a : List (List ℕ)) × (unpack_strings (suc n) room len old m ≡ some (a, r))
unpack_strings_more n size len0 size' m r mode v inside lo copies room len [] few enough =
    absurd (omega arith)
unpack_strings_more n size len0 size' m r mode v inside lo copies room len (o ∷ old) few enough =
    let l = word_at m in
    let fit : l + 1 ≤ room = omega arith in
    let (a, run) = copies (room - (l + 1)) l old (omega arith) (omega arith) in
    unpack_strings_step n room len o old m mode v inside fit a r run

measure_stops :
    (n size : ℕ) (len l : ℕ) (m m1 : Msg)
    → Same m m1
    → ixp_pu16 0 m ≡ some (l, m1)
    → m1.end < m1.pos + l
    → Measured (suc n) size m (measure (suc n) size len m)
unfolding measure unless_past
measure_stops n size len l m m1 same run over =
    stopped (record m1 { pos = m1.end + 1 })
      (>>=_some (ixp_pu16 0) _ run
        ∙ >>=_some (skip l) _ (skip_past m1 l same.valid over)
        ∙ rw (lt→ltb m1.end (m1.end + 1) (omega arith)))
      (Same-trans same
        (moved m1 (m1.end + 1) same.mode same.valid (omega arith) (λ _. omega arith)))

measure_counts :
    (n size len : ℕ) (m : Msg)
    → m.mode ≡ msg_unpack
    → IsValid m
    → m.pos + 2 + word_at m ≤ m.end
    → size + suc n * 2 ^ 16 < 2 ^ 32
    → Measured n
        (size + word_at m)
        (record m { pos = m.pos + 2 + word_at m })
        (measure n (size + word_at m) (word_at m) (record m { pos = m.pos + 2 + word_at m }))
    → Measured (suc n) size m (measure (suc n) size len m)
unfolding measure unless_past
measure_counts n size len m mode v inside small rest =
    let l = word_at m in
    let lt = word_at-lt m in
    let m1 : Msg = record m { pos = m.pos + 2 } in
    let m2 : Msg = record m { pos = m.pos + 2 + l } in
    let same1 = moved m (m.pos + 2) mode v (omega arith) (λ h. absurd (omega arith)) in
    let same2 = moved m (m.pos + 2 + l) mode v (omega arith) (λ h. absurd (omega arith)) in
    let wrap : (size + l) % 2 ^ 32 ≡ size + l = omega arith in
    let first : measure (suc n) size len m ≡ measure n (size + l) l m2 =
      >>=_some (ixp_pu16 0) _ (pu16_room 0 m mode v (omega arith))
      ∙ >>=_some (skip l) _ (skip_room m1 l same1.valid inside)
      ∙ rw (ge→ltb m.end (m.pos + 2 + l) inside) (ap (λ k. measure n k l m2) wrap) in
    elim rest [
      | stopped r run same ↦ stopped r (first ∙ run) (Same-trans same2 same)
      | counted size' last r run same lo hi copies ↦
          counted size' last r (first ∙ run) (Same-trans same2 same) (omega arith) (omega arith)
            (unpack_strings_more n size len size' m r mode v inside lo copies)
    ]

measure_outcome :
    (n size len : ℕ) (m : Msg)
    → m.mode ≡ msg_unpack
    → IsValid m
    → size + n * 2 ^ 16 < 2 ^ 32
    → Measured n size m (measure n size len m)
measure_outcome zero size len m mode v small =
    counted size len m (unfold measure pure in refl) (moved m m.pos mode v v.near (λ h. h))
      (omega arith) (omega arith)
      (λ room len' old few enough. (old, unfold unpack_strings pure in refl))
measure_outcome (suc n) size len m mode v small = elim (le_or_lt (m.pos + 2) m.end) [
  | inr over ↦
      measure_stops n size len 0 m (record m { pos = m.end + 1 })
        (moved m (m.end + 1) mode v (omega arith) (λ _. omega arith)) (pu16_past 0 m mode v over)
        (omega arith)
  | inl room ↦ elim (le_or_lt (m.pos + 2 + word_at m) m.end) [
    | inr over ↦
        measure_stops n size len (word_at m) m (record m { pos = m.pos + 2 })
          (moved m (m.pos + 2) mode v (omega arith) (λ h. absurd (omega arith)))
          (pu16_room 0 m mode v room) over
    | inl inside ↦
        let lt = word_at-lt m in
        let same2 =
          moved m (m.pos + 2 + word_at m) mode v (omega arith) (λ h. absurd (omega arith)) in
        measure_counts n size len m mode v inside small (
          measure_outcome n (size + word_at m) (word_at m)
            (record m { pos = m.pos + 2 + word_at m }) mode same2.valid (omega arith))
  ]
]

back_to : (m r : Msg) → m.mode ≡ msg_unpack → Same m r → record r { pos = m.pos } ≡ m
back_to m r mode same =
    let c = same.mode ∙ sym mode in
    λ i. record { buf = same.buf i; pos = m.pos; end = same.end i; size = same.size i; mode = c i }

strings_passes_safe :
    (n : ℕ) (old : List (List ℕ)) (m : Msg)
    → n ≤ 16
    → n ≤ length old
    → m.mode ≡ msg_unpack
    → IsValid m
    → (a : List (List ℕ)) × (r : Msg) × (strings_passes msg_unpack m.pos n old m ≡ some (a, r))
      × Same m r
unfolding strings_passes unpack_measured rewind pure
strings_passes_safe n old m few room mode v = elim (measure_outcome n 0 0 m mode v (omega arith)) [
  | stopped r run same ↦ (old, r, >>=_some (measure n 0 0) _ run, same)
  | counted size' last r run same lo hi copies ↦
      let fit : (size' + n) % 2 ^ 32 ≡ size' + n = omega arith in
      let (a, copied) = copies ((size' + n) % 2 ^ 32) last old room (omega arith) in
      (
        a,
        r,
        >>=_some (measure n 0 0) _ run
            ∙ >>=_some (rewind m.pos) _ (ap (λ k. some (tt, k)) (back_to m r mode same))
            ∙ copied,
        same,
      )
]

pub Safe-pstrings :
    (num : ℕ) (old : List (List ℕ)) → length old ≡ 16 → Safe (ixp_pstrings num old 16)
unfolding ixp_pstrings here pure
Safe-pstrings num old full = Safe-bind _ _ (Safe-pu16 num) λ n. Safe-unless_past _ _ (
    Safe-unless_more n 16 _ _ λ few. record {
      at = λ m mode v.
          let (a, r, run, same) = strings_passes_safe n old m few (omega arith) mode v in
          (
            (n, a),
            r,
            >>=_some here _ refl
                ∙ >>=_some (with_mode λ c. strings_passes c m.pos n old) _
                    (with_mode_lem (λ c. strings_passes c m.pos n old) mode ∙ run),
            same,
          );
    })
