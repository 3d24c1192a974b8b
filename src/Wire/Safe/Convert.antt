-- ===== src/Wire/Safe/Convert.antt =====
-- ixp_pu8 to ixp_pqids (lib/libixp/convert.c) on any bytes.
use libixp.Prelude.{
  ℕ, zero, suc, ◌+◌, ◌%◌, ◌^◌, ◌≤◌, refl, ◌∙◌, List, [], ◌∷◌, arith, length, take, drop, inl, inr,
  le_or_lt, ge→ltb, lt→ltb,
}
use libixp.Wire.Types.{Qid, Stat}
use libixp.Wire.Msg.{M, pure, >>=_some, with_mode, with_mode_lem, read_bytes}
use libixp.Wire.Access.{read_bytes_room}
use libixp.Wire.Convert.{
  Width, s_byte, s_word, s_dword, width, load, transfer, copy, ixp_puint, ixp_pu8, ixp_pu16,
  ixp_pu32, ixp_pu64, ixp_pdata, ixp_pstring, ixp_pqid, ixp_pstat, size_in, unless_more, qids_loop,
  ixp_pqids,
}
use libixp.Wire.Safe.{Safe, Safe-pure, Safe-bind, Safe-with_mode, Safe-unless_past, Safe-block}

pub Safe-puint : (w : Width) (v : ℕ) → Safe (ixp_puint w v)
unfolding ixp_puint transfer pure
Safe-puint w v =
    Safe-block (width w) (with_mode λ mode. transfer mode w v) (pure v)
      (λ m mode valid room. (
        load w (take (width w) (drop m.pos m.buf)),
        with_mode_lem (λ c. transfer c w v) mode
            ∙ >>=_some (read_bytes (width w)) _
                (read_bytes_room m (width w) (omega (arith, valid.width, valid.bounded))),
      ))
      (λ m. (v, refl))

pub Safe-pu8 : (v : ℕ) → Safe (ixp_pu8 v)
unfolding ixp_pu8
Safe-pu8 v = Safe-bind _ _ (Safe-puint s_byte v) (λ u. Safe-pure (u % 2 ^ 8))

pub Safe-pu16 : (v : ℕ) → Safe (ixp_pu16 v)
unfolding ixp_pu16
Safe-pu16 v = Safe-bind _ _ (Safe-puint s_word v) (λ u. Safe-pure (u % 2 ^ 16))

pub Safe-pu32 : (v : ℕ) → Safe (ixp_pu32 v)
unfolding ixp_pu32
Safe-pu32 v = Safe-puint s_dword v

pub Safe-pu64 : (v : ℕ) → Safe (ixp_pu64 v)
unfolding ixp_pu64
Safe-pu64 v =
    Safe-bind _ _ (Safe-puint s_dword _)
      (λ vl. Safe-bind _ _ (Safe-puint s_dword _) (λ vb. Safe-pure _))

pub Safe-pdata : (s : List ℕ) (len : ℕ) → Safe (ixp_pdata s len)
unfolding ixp_pdata copy pure
Safe-pdata s len =
    Safe-block len (with_mode λ mode. copy mode len s) (pure s)
      (λ m mode valid room. (
        take len (drop m.pos m.buf),
        with_mode_lem (λ c. copy c len s) mode
            ∙ read_bytes_room m len (omega (arith, valid.width, valid.bounded)),
      ))
      (λ m. (s, refl))

pub Safe-pstring : (s : List ℕ) → Safe (ixp_pstring s)
unfolding ixp_pstring
Safe-pstring s =
    Safe-bind _ _ (Safe-with_mode _ (Safe-pu16 _)) (λ len. Safe-unless_past s _ (Safe-pdata s len))

pub Safe-pqid : (q : Qid) → Safe (ixp_pqid q)
unfolding ixp_pqid
Safe-pqid q = Safe-bind _ _ (Safe-pu8 q.type) (λ _.
    Safe-bind _ _ (Safe-pu32 q.version) (λ _. Safe-bind _ _ (Safe-pu64 q.path) (λ _. Safe-pure _)))

pub Safe-unless_more :
    {A : Type 0} (num max : ℕ) (z : A) (x : M A)
    → (num ≤ max → Safe x)
    → Safe (unless_more num max z x)
unfolding unless_more
Safe-unless_more num max z x h = record {
  at = λ m mode v. elim (le_or_lt num max) [
    | inl few ↦ let (a, r, run, p) = (h few).at m mode v in (a, r, rw (ge→ltb max num few) run, p)
    | inr many ↦ (
      z,
      record m { pos = m.end + 1 },
      rw (lt→ltb max num many),
      record {
        valid = record { width = v.width; fits = v.fits; bounded = v.bounded; near = omega arith };
        mode = mode;
        buf = refl;
        end = refl;
        size = refl;
        past = λ h. omega arith;
      },
    )
  ];
}

qids_loop-Safe : (n : ℕ) (qs : List Qid) → n ≤ length qs → Safe (qids_loop n qs)
unfolding qids_loop
qids_loop-Safe zero qs h = Safe-pure qs
qids_loop-Safe (suc n) [] h = absurd (omega arith)
qids_loop-Safe (suc n) (q ∷ qs) h =
    Safe-bind _ _ (Safe-pqid q)
      (λ q'. Safe-bind _ _ (qids_loop-Safe n qs (omega arith)) (λ qs'. Safe-pure (q' ∷ qs')))

-- The bound `max` keeps the loop inside the array.
pub Safe-pqids : (num max : ℕ) (qs : List Qid) → max ≤ length qs → Safe (ixp_pqids num qs max)
unfolding ixp_pqids
Safe-pqids num max qs h = Safe-bind _ _ (Safe-pu16 num) (λ n. Safe-unless_past _ _ (
    Safe-unless_more n max _ _
      (λ few. Safe-bind _ _ (qids_loop-Safe n qs (omega arith)) (λ qs'. Safe-pure _))))

pub Safe-pstat : (s : Stat) → Safe (ixp_pstat s)
unfolding ixp_pstat
Safe-pstat s = Safe-bind _ _ (Safe-with_mode (λ mode. ixp_pu16 (size_in mode s)) (Safe-pu16 _)) λ _.
    Safe-bind _ _ (Safe-pu16 s.type) λ _. Safe-bind _ _ (Safe-pu32 s.dev) λ _.
      Safe-bind _ _ (Safe-pqid s.qid) λ _. Safe-bind _ _ (Safe-pu32 s.mode) λ _.
        Safe-bind _ _ (Safe-pu32 s.atime) λ _. Safe-bind _ _ (Safe-pu32 s.mtime) λ _.
          Safe-bind _ _ (Safe-pu64 s.length) λ _. Safe-bind _ _ (Safe-pstring s.name) λ _.
            Safe-bind _ _ (Safe-pstring s.uid) λ _.
              Safe-bind _ _ (Safe-pstring s.gid)
                λ _. Safe-bind _ _ (Safe-pstring s.muid) λ _. Safe-pure _
