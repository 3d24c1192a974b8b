-- ===== src/Wire/Packs/Arrays.antt =====
-- ixp_pstrings and ixp_pqids (lib/libixp/convert.c) when packing.
use mathlib.Core.Path.{subst}
use libixp.Prelude.{
  ℕ, zero, suc, ◌%◌, ◌^◌, ◌≤◌, ◌<◌, ◌≡◌, refl, sym, ap, ◌∙◌, List, [], ◌∷◌, ◌++◌, arith, length,
  append-nil, append_assoc, ge→ltb, All,
}
use libixp.Wire.Types.{Qid}
use libixp.Wire.Msg.{M, ◌>>=◌, >>=_some, here}
use libixp.Wire.Convert.{
  strlen, ixp_pu16, ixp_pdata, ixp_pqid, pack_strings, strings_passes, unless_more, ixp_pstrings,
  qids_loop, ixp_pqids,
}
use libixp.Wire.Format.{le_bytes, format_strings, format_qid, format_qids, IsString, IsQid}
use libixp.Wire.Packs.{
  Packs, Packs-pure, Packs-bind, Packs-congr, Packs-with_mode, Packs-unless_past,
}
use libixp.Wire.Packs.Convert.{Packs-pu16, Packs-pdata, Packs-pqid, strlen-eq-length}

pack_strings-Packs :
    (n : ℕ) (ss : List (List ℕ))
    → n ≤ length ss
    → All IsString ss
    → Packs (pack_strings n ss) (format_strings n ss) ss
unfolding pack_strings
pack_strings-Packs zero ss h ok = Packs-pure ss
pack_strings-Packs (suc n) [] h ok = absurd (omega arith)
pack_strings-Packs (suc n) (s ∷ ss) h (hs, ok) =
    let len : strlen s % 2 ^ 16 ≡ length s = omega (arith, strlen-eq-length s hs.chars, hs.short) in
    Packs-congr
      (ap (λ l. le_bytes 2 (length s) ++ (s ++ l)) (append-nil (format_strings n ss))
        ∙ sym (append_assoc (le_bytes 2 (length s)) s (format_strings n ss)))
      (Packs-bind (ixp_pu16 (strlen s % 2 ^ 16)) _
        (subst (λ k. Packs (ixp_pu16 k) (le_bytes 2 (length s)) (length s)) (sym len)
          (Packs-pu16 (length s) hs.short))
        (Packs-bind (ixp_pdata s (length s)) _ (Packs-pdata s (length s) refl) (
          Packs-bind (pack_strings n ss) _ (pack_strings-Packs n ss (omega arith) ok)
            (Packs-pure (s ∷ ss)))))

Packs-unless_more :
    {A : Type 0} (num max : ℕ) (z : A) {x : M A} {bs : List ℕ} {a : A}
    → num ≤ max
    → Packs x bs a
    → Packs (unless_more num max z x) bs a
unfolding unless_more
Packs-unless_more num max z h hx = record {
  at = λ m mode v. let (r, run, p) = hx.at m mode v in (r, rw (ge→ltb max num h) run, p);
}

-- A value read from the message that the rest does not depend on when packing.
Packs-here :
    {A : Type 0} (k : ℕ → M A) {bs : List ℕ} {a : A}
    → ((start : ℕ) → Packs (k start) bs a)
    → Packs (here >>= k) bs a
unfolding here
Packs-here k h = record {
  at = λ m mode v. let (r, run, p) = (h m.pos).at m mode v in (r, >>=_some here k refl ∙ run, p);
}

pub Packs-pstrings :
    (n max : ℕ) (ss : List (List ℕ))
    → n ≤ length ss
    → n ≤ max
    → n < 2 ^ 16
    → All IsString ss
    → Packs (ixp_pstrings n ss max) (le_bytes 2 n ++ format_strings n ss) (n, ss)
unfolding ixp_pstrings strings_passes
Packs-pstrings n max ss h le few ok = Packs-bind (ixp_pu16 n) _ (Packs-pu16 n few) (
    Packs-unless_past (n, ss)
      (Packs-unless_more n max (n, ss) le
        (Packs-here _ λ start. Packs-congr (append-nil (format_strings n ss)) (
          Packs-bind _ _
            (Packs-with_mode (λ mode. strings_passes mode start n ss)
              (pack_strings-Packs n ss h ok))
            (Packs-pure (n, ss))))))

qids_loop-Packs :
    (n : ℕ) (qs : List Qid)
    → n ≤ length qs
    → All IsQid qs
    → Packs (qids_loop n qs) (format_qids n qs) qs
unfolding qids_loop
qids_loop-Packs zero qs h ok = Packs-pure qs
qids_loop-Packs (suc n) [] h ok = absurd (omega arith)
qids_loop-Packs (suc n) (q ∷ qs) h (hq, ok) =
    Packs-congr (ap (λ l. format_qid q ++ l) (append-nil (format_qids n qs))) (
      Packs-bind (ixp_pqid q) _ (Packs-pqid q hq) (
        Packs-bind (qids_loop n qs) _ (qids_loop-Packs n qs (omega arith) ok)
          (Packs-pure (q ∷ qs))))

pub Packs-pqids :
    (n max : ℕ) (qs : List Qid)
    → n ≤ length qs
    → n ≤ max
    → n < 2 ^ 16
    → All IsQid qs
    → Packs (ixp_pqids n qs max) (le_bytes 2 n ++ format_qids n qs) (n, qs)
unfolding ixp_pqids
Packs-pqids n max qs h le few ok = Packs-bind (ixp_pu16 n) _ (Packs-pu16 n few) (
    Packs-unless_past (n, qs)
      (Packs-unless_more n max (n, qs) le
        (Packs-congr (append-nil (format_qids n qs))
          (Packs-bind (qids_loop n qs) _ (qids_loop-Packs n qs h ok) (Packs-pure (n, qs))))))
