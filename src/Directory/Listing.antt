-- ===== src/Directory/Listing.antt =====
-- ixp_srv_readdir of lib/libixp/srv_util.c against the entries that it should give.
use libixp.Prelude.{
  ℕ, ◌+◌, ◌-◌, ◌%◌, ◌^◌, ◌≤◌, ◌<◌, ◌≡◌, refl, sym, ap, ◌∙◌, List, [], ◌∷◌, ◌++◌, append-nil,
  append_assoc, map, concat, All, take, length, length-append, replicate, length-replicate, Option,
  none, some, le→leb, lt→ltb, ge→ltb, gt→leb, le_or_lt, inl, inr, arith,
}
use libixp.Wire.Types.{Stat}
use libixp.Wire.Msg.{Msg, msg_pack, ixp_message, IsValid}
use libixp.Wire.Format.{format_stat, IsStat}
use libixp.Wire.Packs.Entry.{sizeof_stat-eq-length, Packs-pstat}
use mathlib.Core.Path.{subst}
use libixp.Request.{Req}
use libixp.FileIds.{Pool, FileId, file_at}
use libixp.FileIds.Counts.{Chain, IsPool}
use libixp.FileIds.Released.{linked-Chain}
use libixp.FileIds.Ends.{free_linked-Chain}
use libixp.Directory.{pack_entries, size_of, stats_of, answer_dir, read_list, ixp_srv_readdir}
use libixp.Directory.Entries.{from, fit, length-fit}

abbrev pub packed_stats : List Stat → List (List ℕ)
packed_stats sts = map format_stat sts

-- The message `r` has the bytes `bs` behind those of `m`.
abbrev pub Extends : Msg → List ℕ → Option Msg → Type 0
Extends m bs none = ⊥
Extends m bs (some r) = (r.pos ≡ m.pos + length bs) × (take r.pos r.buf ≡ take m.pos m.buf ++ bs)

Extends-more :
    (m r : Msg) (bs cs : List ℕ) (o : Option Msg)
    → r.pos ≡ m.pos + length bs
    → take r.pos r.buf ≡ take m.pos m.buf ++ bs
    → Extends r cs o
    → Extends m (bs ++ cs) o
Extends-more m r bs cs none p t h = h
Extends-more m r bs cs (some u) p t (e, h) = (
  omega (arith, e, p, length-append bs cs),
  h ∙ ap (λ j. j ++ cs) t ∙ append_assoc (take m.pos m.buf) bs cs,
)

-- Once an entry is packed, all that follow are, as long as they fit.
pack_rest :
    (sts : List Stat) (asked offset size : ℕ) (m : Msg)
    → All IsStat sts
    → m.mode ≡ msg_pack
    → IsValid m
    → m.end ≡ m.pos + size
    → asked ≤ offset
    → offset + length (concat (packed_stats sts)) < 2 ^ 64
    → Extends m (concat (fit size (packed_stats sts))) (pack_entries sts asked offset size m)
unfolding pack_entries
pack_rest [] asked offset size m a mode v e le lt =
    (omega arith, sym (append-nil (take m.pos m.buf)))
pack_rest (st ∷ sts) asked offset size m (st_ok, a) mode v e le lt =
    let n = sizeof_stat-eq-length st st_ok in
    let total = length-append (format_stat st) (concat (packed_stats sts)) in
    elim (le_or_lt (length (format_stat st)) size) [
      | inl room ↦
          let (r, pe, pk) = (Packs-pstat st st_ok).at m mode v in
          let (rp, rt) = pk.written (omega (arith, e, room)) in
          let small : (offset + length (format_stat st)) % 2 ^ 64
              ≡ offset + length (format_stat st) =
            omega (arith, lt, total) in
          rw (le→leb asked offset le, n, ge→ltb size _ room, pe, small, le→leb _ size room)
            (Extends-more m r (format_stat st) _ _ rp rt (
              pack_rest sts asked (offset + length (format_stat st))
                (size - length (format_stat st)) r a pk.mode pk.valid
                (omega (arith, pk.end, e, rp, room)) (omega (arith, le))
                (omega (arith, lt, total))))
      | inr past ↦
          rw (le→leb asked offset le, n, lt→ltb size _ past, gt→leb _ size past)
            (omega arith, sym (append-nil (take m.pos m.buf)))
    ]

-- The loop packs the entries that begin at the offset asked or behind it, as many as fit.
pack_entries-Extends :
    (sts : List Stat) (asked offset size : ℕ) (m : Msg)
    → All IsStat sts
    → m.mode ≡ msg_pack
    → IsValid m
    → m.end ≡ m.pos + size
    → offset + length (concat (packed_stats sts)) < 2 ^ 64
    → Extends m
        (concat (fit size (from asked offset (packed_stats sts))))
        (pack_entries sts asked offset size m)
unfolding pack_entries
pack_entries-Extends [] asked offset size m a mode v e lt =
    (omega arith, sym (append-nil (take m.pos m.buf)))
pack_entries-Extends (st ∷ sts) asked offset size m (st_ok, a) mode v e lt =
    let n = sizeof_stat-eq-length st st_ok in
    let total = length-append (format_stat st) (concat (packed_stats sts)) in
    elim (le_or_lt asked offset) [
      | inl le ↦
          let whole : from asked offset (packed_stats (st ∷ sts)) ≡ packed_stats (st ∷ sts) =
            rw (le→leb asked offset le) refl in
          subst
            (λ es. Extends m (concat (fit size es)) (pack_entries (st ∷ sts) asked offset size m))
            (sym whole) (pack_rest (st ∷ sts) asked offset size m (st_ok, a) mode v e le lt)
      | inr past ↦
          let small : (offset + length (format_stat st)) % 2 ^ 64
              ≡ offset + length (format_stat st) =
            omega (arith, lt, total) in
          rw (gt→leb asked offset past, n, small)
            (pack_entries-Extends sts asked (offset + length (format_stat st)) size m a mode v e
              (omega (arith, lt, total)))
    ]

-- The bytes that a read should give.
abbrev pub listing : List Stat → ℕ → ℕ → List ℕ
listing sts asked size = concat (fit size (from asked 0 (packed_stats sts)))

abbrev pub IsListed : List Stat → Req → ℕ → List ℕ → Option (Req × Pool) → Type 0
IsListed sts r iounit owned none = ⊥
IsListed sts r iounit owned (some (r', t)) =
    (take r'.ofcall.count r'.ofcall.payload
      ≡ listing sts r.ifcall.offset (size_of r.ifcall.count iounit))
    × (r'.ofcall.count ≡ length (listing sts r.ifcall.offset (size_of r.ifcall.count iounit)))
    × (r'.ofcall.count ≤ r.ifcall.count)
    × (r'.ofcall.count ≤ iounit)
    × IsPool t owned

answer_dir-IsListed :
    (sts : List Stat) (r : Req) (iounit size : ℕ) (owned : List ℕ) (m : Msg) (o : Option Msg)
    (u : Pool)
    → m.pos ≡ 0
    → size ≡ size_of r.ifcall.count iounit
    → (size ≤ r.ifcall.count) × (size ≤ iounit)
    → IsPool u owned
    → Extends m (listing sts r.ifcall.offset size) o
    → IsListed sts r iounit owned (answer_dir r o (some u))
answer_dir-IsListed sts r iounit size owned m none u z e b p k = k
answer_dir-IsListed sts r iounit size owned m (some v) u z e b p (pos, bytes) =
    let most = length-fit size (from r.ifcall.offset 0 (packed_stats sts)) in
    (
      subst (λ n. take v.pos v.buf ≡ listing sts r.ifcall.offset n) e
          (bytes ∙ ap (λ n. take n m.buf ++ listing sts r.ifcall.offset size) z),
      subst (λ n. v.pos ≡ length (listing sts r.ifcall.offset n)) e (omega (arith, pos, z)),
      omega (arith, b, most, pos, z),
      omega (arith, b, most, pos, z),
      p,
    )

-- If lookup gives the directory's "." with a list of entries behind it and a reference to each one,
-- whose stats the format has, no more than an offset can count, and the fuel is enough for the list,
-- ixp_srv_readdir returns. It answers the bytes of the entries that begin at the offset or behind it,
-- whole ones, as many as are at most the count and the iounit together, and drops the references.
pub readdir-IsListed :
    (fuel : ℕ) (list : Pool → ℕ → Option ℕ × Pool) (dostat : FileId → Stat) (dir iounit : ℕ)
    (r : Req) (s t : Pool) (file : ℕ) (xs owned : List ℕ)
    → list s dir ≡ (some file, t)
    → Chain t (file_at t file).next xs
    → IsPool t ((file ∷ xs) ++ owned)
    → length xs < fuel
    → All IsStat (stats_of dostat t xs)
    → r.ifcall.count < 2 ^ 32
    → length (concat (packed_stats (stats_of dostat t xs))) < 2 ^ 64
    → IsListed
        (stats_of dostat t xs)
        r
        iounit
        owned
        (ixp_srv_readdir fuel list dostat dir iounit r s)
unfolding ixp_srv_readdir read_list ixp_message
readdir-IsListed fuel list dostat dir iounit r s t file xs owned found c h le ok lt total =
    let size = size_of r.ifcall.count iounit in
    let sts = stats_of dostat t xs in
    let bounds : (size ≤ r.ifcall.count) × (size ≤ iounit) = ground arith in
    let m : Msg = record {
      buf = replicate size 0;
      pos = 0;
      end = size;
      size = size;
      mode = msg_pack;
    } in
    let valid : IsValid m = record {
      width = length-replicate size 0;
      fits = omega (arith, bounds, lt);
      bounded = omega arith;
      near = omega arith;
    } in
    let k =
      pack_entries-Extends sts r.ifcall.offset 0 size m ok refl valid (omega arith)
        (omega (arith, total)) in
    let (u, eq, pool, kept) = free_linked-Chain fuel file t xs owned c le h in
    rw (found, linked-Chain xs t (file_at t file).next fuel c (omega (arith, le)), eq)
      (answer_dir-IsListed sts r iounit size owned m _ u refl refl bounds pool k)
