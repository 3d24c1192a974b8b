-- ===== src/Wire/Unpacks/Arrays.antt =====
-- ixp_pstrings and ixp_pqids (lib/libixp/convert.c) on packed input.
use mathlib.Core.Path.{subst}
use libixp.Prelude.{
  ℕ, zero, suc, ◌%◌, ◌+◌, ◌-◌, ◌^◌, ◌≤◌, ◌<◌, ◌≡◌, refl, sym, ap, ◌∙◌, List, [], ◌∷◌, ◌++◌, arith,
  length, take, drop, some, none, none, Option, append-nil, append_assoc, length-append, le→leb,
  ge→ltb, All,
}
use libixp.Wire.Types.{Qid}
use libixp.Wire.Msg.{
  Msg, M, msg_unpack, pure, ◌>>=◌, ◌>>◌, >>=_some, with_mode, with_mode_lem, here, IsValid,
  read_bytes, skip,
}
use libixp.Wire.Access.{read_bytes_front, skip_room}
use libixp.Wire.Convert.{
  ixp_pu16, ixp_pqid, measure, rewind, seek, claim, unpack_strings, unpack_measured, strings_passes,
  unless_more, ixp_pstrings, qids_loop, ixp_pqids,
}
use libixp.Wire.Format.{le_bytes, format_strings, format_qid, format_qids, IsQid}
use libixp.Wire.Unpacks.{
  Unpacks, Unpacks-pure, Unpacks-bind, Unpacks-after, Unpacks-congr, Unpacks-unless_past,
}
use libixp.Wire.Unpacks.Convert.{Unpacks-pu16, Unpacks-pqid}

-- The bytes of the first `n` strings.
abbrev pub total : ℕ → List (List ℕ) → ℕ
total zero ss = 0
total (suc n) [] = 0
total (suc n) (s ∷ ss) = length s + total n ss

abbrev pub AreShort : List (List ℕ) → Type 0
AreShort = All (λ s. length s < 2 ^ 16)

Unpacks-skip : (s : List ℕ) → Unpacks (skip (length s)) s tt
Unpacks-skip s = record { at = λ m rest mode v e r. skip_room m (length s) v r }

measure-Unpacks :
    (n size len : ℕ) (ss : List (List ℕ))
    → n ≤ length ss
    → AreShort ss
    → size + total n ss < 2 ^ 32
    → (last : ℕ) × Unpacks
        (measure n size len)
        (format_strings n ss)
        (some (size + total n ss, last))
unfolding measure
measure-Unpacks zero size len ss h short fits =
    let e : size ≡ size + 0 = omega arith in
    (
      len,
      subst (λ k. Unpacks {A = Option (ℕ × ℕ)} (pure (some (size, len))) [] (some (k, len))) e
          (Unpacks-pure _),
    )
measure-Unpacks (suc n) size len [] h short fits = absurd (omega arith)
measure-Unpacks (suc n) size len (s ∷ ss) h (hs, short) fits =
    let wrap : (size + length s) % 2 ^ 32 ≡ size + length s = omega arith in
    let (last, rest) =
      measure-Unpacks n (size + length s) (length s) ss (omega arith) short (omega arith) in
    let sum : size + length s + total n ss ≡ size + (length s + total n ss) = omega arith in
    (
      last,
      Unpacks-congr (sym (append_assoc (le_bytes 2 (length s)) s (format_strings n ss))) (
          Unpacks-bind (ixp_pu16 0) _ (Unpacks-pu16 0 (length s) hs) (
            Unpacks-bind (skip (length s)) _ (Unpacks-skip s) (
              Unpacks-unless_past none (
                subst
                  (λ k.
                    Unpacks {A = Option (ℕ × ℕ)} (measure n k (length s)) (format_strings n ss)
                      (some (size + (length s + total n ss), last)))
                  (sym wrap)
                  (subst
                    (λ k.
                      Unpacks {A = Option (ℕ × ℕ)} (measure n (size + length s) (length s))
                        (format_strings n ss) (some (k, last)))
                    sum rest))))),
    )

-- The unchecked copy of a string that pass one has measured.
Unpacks-copied :
    {B : Type 0} (s : List ℕ) (room : ℕ) (k : List ℕ → ℕ → M B) {cs : List ℕ} {b : B}
    → length s + 1 ≤ room
    → Unpacks (k s (room - (length s + 1))) cs b
    → Unpacks
        (read_bytes (length s) >>= λ s'.
          claim room (length s + 1) >>= λ room'. seek (length s) >> k s' room')
        (s ++ cs)
        b
unfolding claim seek pure
Unpacks-copied s room k {cs} {b} enough hk = record {
  at = λ m rest mode v e h.
      let whole : drop m.pos m.buf ≡ s ++ (cs ++ rest) = e ∙ append_assoc s cs rest in
      >>=_some (read_bytes (length s)) _
        (read_bytes_front m s (cs ++ rest) v whole (omega (arith, length-append s cs)))
      ∙ >>=_some (claim room (length s + 1)) _ (rw (le→leb _ _ enough))
      ∙ >>=_some (seek (length s)) _ refl
      ∙ Unpacks-after s hk m rest mode v whole h;
}

unpack_strings-Unpacks :
    (n room len : ℕ) (old ss : List (List ℕ))
    → n ≤ length ss
    → n ≤ length old
    → AreShort ss
    → total n ss + n ≤ room
    → Unpacks (unpack_strings n room len old) (format_strings n ss) (take n ss ++ drop n old)
unfolding unpack_strings
unpack_strings-Unpacks zero room len old ss h k short enough = Unpacks-pure old
unpack_strings-Unpacks (suc n) room len old [] h k short enough = absurd (omega arith)
unpack_strings-Unpacks (suc n) room len [] (s ∷ ss) h k short enough = absurd (omega arith)
unpack_strings-Unpacks (suc n) room len (o ∷ old) (s ∷ ss) h k (hs, short) enough =
    Unpacks-congr
      (ap (λ l. le_bytes 2 (length s) ++ (s ++ l)) (append-nil (format_strings n ss))
        ∙ sym (append_assoc (le_bytes 2 (length s)) s (format_strings n ss)))
      (Unpacks-bind (ixp_pu16 len) _ (Unpacks-pu16 len (length s) hs) (
        Unpacks-copied s room
          (λ s' room'. unpack_strings n room' (length s) old >>= λ strings'. pure (s' ∷ strings'))
          (omega arith)
          (Unpacks-bind _ _
            (unpack_strings-Unpacks n (room - (length s + 1)) (length s) old ss (omega arith)
              (omega arith) short (omega arith))
            (Unpacks-pure (s ∷ (take n ss ++ drop n old))))))

strings_passes-Unpacks :
    (n : ℕ) (old ss : List (List ℕ))
    → n ≤ length ss
    → n ≤ length old
    → n ≤ 16
    → AreShort ss
    → total n ss + n < 2 ^ 32
    → (m : Msg) (rest : List ℕ) → m.mode ≡ msg_unpack
    → IsValid m
    → drop m.pos m.buf ≡ format_strings n ss ++ rest
    → m.pos + length (format_strings n ss) ≤ m.end
    → strings_passes msg_unpack m.pos n old m
      ≡ some (take n ss ++ drop n old, record m { pos = m.pos + length (format_strings n ss) })
unfolding strings_passes unpack_measured rewind
strings_passes-Unpacks n old ss h k few short fits m rest mode v e r =
    let (last, counted) = measure-Unpacks n 0 0 ss h short (omega arith) in
    let copied =
      unpack_strings-Unpacks n ((0 + total n ss + n) % 2 ^ 32) last old ss h k short
        (omega arith) in
    >>=_some (measure n 0 0) _ (counted.at m rest mode v e r)
    ∙ >>=_some (rewind m.pos) _ refl
    ∙ copied.at m rest mode v e r

Unpacks-unless_more :
    {A : Type 0} (num max : ℕ) (z : A) {x : M A} {bs : List ℕ} {a : A}
    → num ≤ max
    → Unpacks x bs a
    → Unpacks (unless_more num max z x) bs a
unfolding unless_more
Unpacks-unless_more num max z h hx = record {
  at = λ m rest mode v e r. rw (ge→ltb max num h) (hx.at m rest mode v e r);
}

pub Unpacks-pstrings :
    (num n max : ℕ) (old ss : List (List ℕ))
    → n ≤ length ss
    → n ≤ length old
    → n ≤ max
    → n ≤ 16
    → AreShort ss
    → total n ss + n < 2 ^ 32
    → Unpacks
        (ixp_pstrings num old max)
        (le_bytes 2 n ++ format_strings n ss)
        (n, take n ss ++ drop n old)
unfolding ixp_pstrings here pure
Unpacks-pstrings num n max old ss h k le few short fits =
    Unpacks-bind (ixp_pu16 num) _ (Unpacks-pu16 num n (omega arith)) (
      Unpacks-unless_past (n, old)
        (Unpacks-unless_more n max (n, old) le
          (record {
            at = λ m rest mode v e r.
                >>=_some here _ refl
                ∙ >>=_some (with_mode λ mode. strings_passes mode m.pos n old) _ (
                    with_mode_lem (λ mode. strings_passes mode m.pos n old) mode
                    ∙ strings_passes-Unpacks n old ss h k few short fits m rest mode v e r);
          })))

qids_loop-Unpacks :
    (n : ℕ) (old qs : List Qid)
    → n ≤ length qs
    → n ≤ length old
    → All IsQid qs
    → Unpacks (qids_loop n old) (format_qids n qs) (take n qs ++ drop n old)
unfolding qids_loop
qids_loop-Unpacks zero old qs h k ok = Unpacks-pure old
qids_loop-Unpacks (suc n) old [] h k ok = absurd (omega arith)
qids_loop-Unpacks (suc n) [] (q ∷ qs) h k ok = absurd (omega arith)
qids_loop-Unpacks (suc n) (o ∷ old) (q ∷ qs) h k (hq, ok) =
    Unpacks-congr (ap (λ l. format_qid q ++ l) (append-nil (format_qids n qs))) (
      Unpacks-bind (ixp_pqid o) _ (Unpacks-pqid o q hq) (
        Unpacks-bind (qids_loop n old) _ (qids_loop-Unpacks n old qs (omega arith) (omega arith) ok)
          (Unpacks-pure (q ∷ (take n qs ++ drop n old)))))

pub Unpacks-pqids :
    (num n max : ℕ) (old qs : List Qid)
    → n ≤ length qs
    → n ≤ length old
    → n ≤ max
    → n < 2 ^ 16
    → All IsQid qs
    → Unpacks
        (ixp_pqids num old max)
        (le_bytes 2 n ++ format_qids n qs)
        (n, take n qs ++ drop n old)
unfolding ixp_pqids
Unpacks-pqids num n max old qs h k le lt ok =
    Unpacks-bind (ixp_pu16 num) _ (Unpacks-pu16 num n lt) (
      Unpacks-unless_past (n, old)
        (Unpacks-unless_more n max (n, old) le
          (Unpacks-congr (append-nil (format_qids n qs)) (
            Unpacks-bind (qids_loop n old) _ (qids_loop-Unpacks n old qs h k ok)
              (Unpacks-pure (n, take n qs ++ drop n old))))))
