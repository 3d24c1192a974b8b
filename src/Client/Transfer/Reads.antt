-- ===== src/Client/Transfer/Reads.antt =====
-- What ixp_pread (lib/libixp/client.c) reads of a file.
use libixp.Prelude.{
  ℕ, zero, suc, ◌+◌, ◌-◌, ◌%◌, ◌^◌, ◌≤◌, ◌<◌, ◌≡◌, refl, sym, ap, ◌∙◌, true, false, List, [],
  append-nil, Option, some, take, drop, length, length-take, take_all, drop-drop, take-take-drop,
  ◌==◌, ltb, ge→ltb, lt→ltb, Bool-cases, inl, inr, if◌then◌else◌, arith,
}
use libixp.Wire.Types.{Fcall}
use libixp.Client.{CFid, Client, dofcall, dofcall-some}
use libixp.Client.Transfer.{min, min_lem, prepend, got, pread_loop, _pread, ixp_pread}

-- The answer to a read of the bytes `bs`.
pub record IsData (bs : List ℕ) (r : Fcall) : Type 0 where
  pub type : r.type ≡ 117
  pub count : r.count ≡ length bs
  pub payload : r.payload ≡ bs

-- The service answers every read of the fid with the bytes of the file there, as many as are asked for
-- if so many are there, and keeps its state.
abbrev pub ServesFile : {W : Type 0} → (Fcall → W → Option Fcall × W) → ℕ → List ℕ → Type 0
ServesFile {W} rpc fid content =
    (q : Fcall) (w : W)
    → q.type ≡ 116
    → q.fid ≡ fid
    → (r : Fcall) × (rpc q w ≡ (some r, w)) × IsData (take q.count (drop q.offset content)) r

-- The end of a turn, by whether all that was asked for came; `bs` is what is left of the file.
got_data :
    {W : Type 0} (n left : ℕ) (bs : List ℕ) (k : ℕ) (payload : List ℕ) (c : Client W)
    (again : ℕ → Client W → Option (Option (List ℕ) × Client W))
    → n ≤ left
    → k ≡ length (take n bs)
    → payload ≡ take n bs
    → again n c ≡ some (some (take (left - n) (drop n bs)), c)
    → prepend (take k payload) (if ltb k n then some (some [], c) else again k c)
      ≡ some (some (take left bs), c)
got_data n left bs k payload c again le ke pe next = elim (Bool-cases (ltb k n)) [
  | inl t ↦
      let short : length bs ≤ n = ground (arith, t, ke, length-take n bs) in
      rw
        (
          t,
          pe,
          take_all k (take n bs) (omega (arith, ke)),
          take_all n bs short,
          take_all left bs (omega (arith, short, le)),
        )
        (ap (λ l. some (some l, c)) (append-nil bs))
  | inr t ↦
      let full : k ≡ n = ground (arith, t, ke, length-take n bs) in
      rw (t, full, next, pe, take_all n (take n bs) (omega (arith, ke, full)))
        (ap (λ l. some (some l, c)) (take-take-drop n (left - n) left bs (omega (arith, le))))
]

module _ {W : Type 0} (rpc : Fcall → W → Option Fcall × W) (stack : Fcall) (f : CFid)
    (content : List ℕ) (serves : ServesFile rpc f.fid content) (unit : 0 < f.iounit)
    (int : f.iounit < 2 ^ 31) where
  -- A turn of the loop.
  turn :
      (fuel left len offset : ℕ) (c : Client W)
      → 0 < left
      → len + left < 2 ^ 31
      → offset + left < 2 ^ 64
      → ((k : ℕ)
          → 0 < k
          → k ≤ left
          → pread_loop rpc fuel stack f (left - k) (len + k) ((offset + k) % 2 ^ 64) c
            ≡ some (some (take (left - k) (drop (offset + k) content)), c))
      → pread_loop rpc (suc fuel) stack f left len offset c
        ≡ some (some (take left (drop offset content)), c)
  unfolding pread_loop got
  turn fuel left len offset c some_left small fits next =
      let n = min left f.iounit in
      let q : Fcall = record stack { type = 116; fid = f.fid; offset = offset; count = n } in
      let (r, e, d) = serves q c.world refl refl in
      let call : dofcall rpc q c ≡ (some r, c) =
        dofcall-some rpc q c r c.world e (d.type) (ap (λ t. t == 107) d.type) in
      let (le, some_pos, whole) = min_lem left f.iounit (omega (arith, small)) int unit in
      let pos : 0 < n = some_pos some_left in
      let bound : ltb n r.count ≡ false =
        ge→ltb n r.count (ground (arith, d.count, length-take n (drop offset content))) in
      let room : ltb left r.count ≡ false =
        ge→ltb left r.count (ground (arith, d.count, length-take n (drop offset content), le)) in
      let no_wrap : ltb (len + r.count) (2 ^ 31) ≡ true =
        lt→ltb (len + r.count) (2 ^ 31)
          (ground (arith, d.count, length-take n (drop offset content), le, small)) in
      let go : (left == 0) ≡ false = ground (arith, some_left) in
      rw (go, call, bound, room, no_wrap)
        (got_data n left (drop offset content) r.count r.payload c
          (λ k. pread_loop rpc fuel stack f (left - k) (len + k) ((offset + k) % 2 ^ 64)) le d.count
          d.payload
          (next n pos le
            ∙ ap (λ l. some (some (take (left - n) l), c))
                (sym (drop-drop offset n (offset + n) content refl))))

  loop-take :
      (fuel left len offset : ℕ) (c : Client W)
      → left < fuel
      → len + left < 2 ^ 31
      → offset + left < 2 ^ 64
      → pread_loop rpc fuel stack f left len offset c
        ≡ some (some (take left (drop offset content)), c)
  unfolding pread_loop
  loop-take zero left len offset c lt small fits = absurd (omega (arith, lt))
  loop-take (suc fuel) zero len offset c lt small fits = refl
  loop-take (suc fuel) (suc left) len offset c lt small fits =
      turn fuel (suc left) len offset c (omega arith) small fits λ k pos le.
        let near : (offset + k) % 2 ^ 64 ≡ offset + k = omega (arith, fits, le) in
        ap (λ o. pread_loop rpc fuel stack f (suc left - k) (len + k) o c) near
        ∙ loop-take fuel (suc left - k) (len + k) (offset + k) c (omega (arith, lt, pos))
            (omega (arith, small, le)) (omega (arith, fits, le))

  -- If the service answers reads of the fid with the bytes of a file, the fid's iounit is not 0, it and
  -- the count are below 2 ^ 31, and offset and count together below 2 ^ 64, then ixp_pread reads exactly the file's bytes at the offset, as many as there are up to the count, in
  -- at most as many turns as the count.
  pub pread-take :
      (fuel count offset : ℕ) (c : Client W)
      → count < fuel
      → count < 2 ^ 31
      → offset + count < 2 ^ 64
      → ixp_pread rpc fuel stack f count offset c
        ≡ some (some (take count (drop offset content)), c)
  unfolding ixp_pread _pread
  pread-take fuel count offset c lt small fits =
      loop-take fuel count 0 offset c lt (omega (arith, small)) fits
