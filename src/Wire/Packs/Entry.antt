-- ===== src/Wire/Packs/Entry.antt =====
-- ixp_pstat (lib/libixp/convert.c) and ixp_sizeof_stat (lib/libixp/message.c) when packing.
use mathlib.Core.Path.{subst}
use libixp.Prelude.{◌+◌, ◌-◌, ◌%◌, ◌^◌, ◌≡◌, sym, arith, length, length-append}
use libixp.Wire.Types.{Qid, Stat}
use libixp.Wire.Convert.{ixp_pu16, ixp_pstat, size_in, ixp_sizeof_stat}
use libixp.Wire.Format.{le_bytes, length-le_bytes, format_qid, format_stat, format_entry, IsStat}
use libixp.Wire.Packs.{Packs, Packs-pure, Packs-bind, Packs-with_mode}
use libixp.Wire.Packs.Convert.{
  Packs-pu16, Packs-pu32, Packs-pu64, Packs-pstring, Packs-pqid, strlen-eq-length,
}

length-format_qid : (q : Qid) → length (format_qid q) ≡ 13
length-format_qid q = simp (length-append, length-le_bytes) (omega arith)

-- The size that ixp_sizeof_stat computes is that of the packed entry and its size field.
pub sizeof_stat-eq-length : (s : Stat) → IsStat s → ixp_sizeof_stat s ≡ length (format_stat s)
unfolding ixp_sizeof_stat
sizeof_stat-eq-length s h =
    let n = strlen-eq-length s.name h.name.chars in
    let u = strlen-eq-length s.uid h.uid.chars in
    let g = strlen-eq-length s.gid h.gid.chars in
    let m = strlen-eq-length s.muid h.muid.chars in
    let small = simp (length-append, length-le_bytes) at h.small in
    rw (n, u, g, m) (simp (length-append, length-le_bytes) (omega arith))

pub Packs-pstat : (s : Stat) → IsStat s → Packs (ixp_pstat s) (format_stat s) s
unfolding ixp_pstat size_in
Packs-pstat s h =
    let n = length (format_entry s) in
    let size : (ixp_sizeof_stat s + 2 ^ 16 - 2) % 2 ^ 16 ≡ n = omega (
      arith,
      sizeof_stat-eq-length s h,
      length-append (le_bytes 2 n) (format_entry s),
      length-le_bytes 2 n,
      h.small,
    ) in
    Packs-bind _ _
      (Packs-with_mode (λ mode. ixp_pu16 (size_in mode s))
        (subst (λ k. Packs (ixp_pu16 k) (le_bytes 2 n) n) (sym size)
          (Packs-pu16 n (omega (arith, h.small)))))
      (Packs-bind _ _ (Packs-pu16 s.type h.type) (
        Packs-bind _ _ (Packs-pu32 s.dev) (
          Packs-bind _ _ (Packs-pqid s.qid h.qid) (
            Packs-bind _ _ (Packs-pu32 s.mode) (
              Packs-bind _ _ (Packs-pu32 s.atime) (
                Packs-bind _ _ (Packs-pu32 s.mtime) (
                  Packs-bind _ _ (Packs-pu64 s.length h.len) (
                    Packs-bind _ _ (Packs-pstring s.name h.name) (
                      Packs-bind _ _ (Packs-pstring s.uid h.uid) (
                        Packs-bind _ _ (Packs-pstring s.gid h.gid)
                          (Packs-bind _ _ (Packs-pstring s.muid h.muid) (Packs-pure s))))))))))))
