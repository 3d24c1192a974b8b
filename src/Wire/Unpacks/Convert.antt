-- ===== src/Wire/Unpacks/Convert.antt =====
-- ixp_pu8 to ixp_pstat (lib/libixp/convert.c) on packed input.
use mathlib.Core.Path.{subst}
use libixp.Prelude.{
  ℕ, ◌/◌, ◌%◌, ◌^◌, ◌<◌, ◌≡◌, ◌≢◌, refl, sym, ap, ◌∙◌, List, [], ◌++◌, arith, length, append-nil,
  some,
}
use libixp.Wire.Types.{Qid, Stat}
use libixp.Wire.Msg.{M, pure, ◌>>=◌, >>=_some, with_mode, with_mode_lem, read_bytes}
use libixp.Wire.Access.{read_bytes_front}
use libixp.Wire.Convert.{
  Width, s_byte, s_word, s_dword, s_qword, width, transfer, copy, ixp_puint, ixp_pu8, ixp_pu16,
  ixp_pu32, ixp_pu64, ixp_pdata, ixp_pstring, length_in, ixp_pqid, ixp_pstat, size_in,
}
use libixp.Wire.Format.{
  le_bytes, length-le_bytes, format_string, format_qid, format_stat, format_entry, IsQid, IsStat,
}
use libixp.Wire.Numbers.{load-le_bytes, low_high, le_bytes_halves}
use libixp.Wire.Unpacks.{
  Unpacks, Unpacks-pure, Unpacks-bind, unpacks_rules, Unpacks-congr, Unpacks-with_mode,
  Unpacks-unless_past, Unpacks-block,
}

pub Unpacks-puint :
    (w : Width) (old v : ℕ)
    → w ≢ s_qword
    → v < 256 ^ width w
    → Unpacks (ixp_puint w old) (le_bytes (width w) v) v
unfolding ixp_puint transfer pure
Unpacks-puint w old v h lt =
    Unpacks-block (width w) (with_mode λ mode. transfer mode w old) (pure old)
      (le_bytes (width w) v) v (sym (length-le_bytes (width w) v))
      λ m rest mode valid e room.
        with_mode_lem (λ c. transfer c w old) mode
        ∙ >>=_some (read_bytes (width w)) _ (
            ap (λ k. read_bytes k m) (sym (length-le_bytes (width w) v))
            ∙ read_bytes_front m (le_bytes (width w) v) rest valid e
                (omega (arith, length-le_bytes (width w) v)))
        ∙ ap (λ k. some (k, m)) (load-le_bytes w v h lt)

-- A value in range is unchanged by the cast back to its type.
cast_back :
    (x : M ℕ) (n v : ℕ) (bs : List ℕ)
    → v % n ≡ v
    → Unpacks x bs v
    → Unpacks (x >>= λ u. pure (u % n)) bs v
cast_back x n v bs e h = Unpacks-congr (append-nil bs) (
    Unpacks-bind x (λ u. pure (u % n)) h
      (subst (λ u. Unpacks (pure (v % n)) [] u) e (Unpacks-pure (v % n))))

pub Unpacks-pu8 : (old v : ℕ) → v < 2 ^ 8 → Unpacks (ixp_pu8 old) (le_bytes 1 v) v
unfolding ixp_pu8
Unpacks-pu8 old v lt =
    cast_back (ixp_puint s_byte old) _ v _ (omega arith) (Unpacks-puint s_byte old v (λ e. cc) lt)

pub Unpacks-pu16 : (old v : ℕ) → v < 2 ^ 16 → Unpacks (ixp_pu16 old) (le_bytes 2 v) v
unfolding ixp_pu16
Unpacks-pu16 old v lt =
    cast_back (ixp_puint s_word old) _ v _ (omega arith) (Unpacks-puint s_word old v (λ e. cc) lt)

pub Unpacks-pu32 : (old v : ℕ) → v < 2 ^ 32 → Unpacks (ixp_pu32 old) (le_bytes 4 v) v
unfolding ixp_pu32
Unpacks-pu32 old v lt = Unpacks-puint s_dword old v (λ e. cc) lt

pub Unpacks-pu64 : (old v : ℕ) → v < 2 ^ 64 → Unpacks (ixp_pu64 old) (le_bytes 8 v) v
unfolding ixp_pu64
Unpacks-pu64 old v lt =
    let lo = v % 2 ^ 32 in
    let hi = v / 2 ^ 32 % 2 ^ 32 in
    Unpacks-congr
      (ap (λ l. le_bytes 4 lo ++ l) (append-nil (le_bytes 4 hi)) ∙ sym (le_bytes_halves v))
      (subst (λ u. Unpacks (ixp_pu64 old) (le_bytes 4 lo ++ (le_bytes 4 hi ++ [])) u)
        (low_high v lt)
        (Unpacks-bind _ _ (Unpacks-puint s_dword _ lo (λ e. cc) (omega arith))
          (Unpacks-bind _ _ (Unpacks-puint s_dword _ hi (λ e. cc) (omega arith)) (Unpacks-pure _))))

-- `bs` is any run of bytes; no count or terminator is read.
pub Unpacks-pdata : (old bs : List ℕ) → Unpacks (ixp_pdata old (length bs)) bs bs
unfolding ixp_pdata copy
Unpacks-pdata old bs =
    Unpacks-block (length bs) (with_mode λ mode. copy mode (length bs) old) (pure old) bs bs refl
      λ m rest mode valid e room.
        with_mode_lem (λ c. copy c (length bs) old) mode ∙ read_bytes_front m bs rest valid e room

pub Unpacks-pstring :
    (old s : List ℕ) → length s < 2 ^ 16 → Unpacks (ixp_pstring old) (format_string s) s
unfolding ixp_pstring
Unpacks-pstring old s lt =
    Unpacks-bind _ _
      (Unpacks-with_mode (λ mode. ixp_pu16 (length_in mode old)) (Unpacks-pu16 _ (length s) lt))
      (Unpacks-unless_past old (Unpacks-pdata old s))

pub Unpacks-pqid : (old q : Qid) → IsQid q → Unpacks (ixp_pqid old) (format_qid q) q
unfolding ixp_pqid
Unpacks-pqid old q h = search (
  unpacks_rules,
  Unpacks-pu8 old.type q.type h.type,
  Unpacks-pu32 old.version q.version h.version,
  Unpacks-pu64 old.path q.path h.path,
)

-- The size that precedes the entry is read and not used.
pub Unpacks-pstat : (old s : Stat) → IsStat s → Unpacks (ixp_pstat old) (format_stat s) s
unfolding ixp_pstat
Unpacks-pstat old s h =
    Unpacks-bind _ _
      (Unpacks-with_mode (λ mode. ixp_pu16 (size_in mode old))
        (Unpacks-pu16 _ (length (format_entry s)) (omega (arith, h.small))))
      (Unpacks-bind _ _ (Unpacks-pu16 old.type s.type h.type) (
        Unpacks-bind _ _ (Unpacks-pu32 old.dev s.dev h.dev) (
          Unpacks-bind _ _ (Unpacks-pqid old.qid s.qid h.qid) (
            Unpacks-bind _ _ (Unpacks-pu32 old.mode s.mode h.mode) (
              Unpacks-bind _ _ (Unpacks-pu32 old.atime s.atime h.atime) (
                Unpacks-bind _ _ (Unpacks-pu32 old.mtime s.mtime h.mtime) (
                  Unpacks-bind _ _ (Unpacks-pu64 old.length s.length h.len) (
                    Unpacks-bind _ _ (Unpacks-pstring old.name s.name h.name.short) (
                      Unpacks-bind _ _ (Unpacks-pstring old.uid s.uid h.uid.short) (
                        Unpacks-bind _ _ (Unpacks-pstring old.gid s.gid h.gid.short) (
                          Unpacks-bind _ _ (Unpacks-pstring old.muid s.muid h.muid.short)
                            (Unpacks-pure s))))))))))))
