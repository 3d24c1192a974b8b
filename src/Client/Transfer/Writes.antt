-- ===== src/Client/Transfer/Writes.antt =====
-- What ixp_pwrite (lib/libixp/client.c) writes to a file.
use libixp.Prelude.{
  ℕ, zero, suc, ◌+◌, ◌%◌, ◌^◌, ◌<◌, ◌≡◌, refl, ap, ◌∙◌, false, true, List, ◌++◌, append_assoc,
  Option, some, take, drop, length, length-take, length-drop, length-append, take_all,
  take-append-drop, ◌==◌, ltb, ge→ltb, lt→ltb, Bool-cases, inl, inr, arith,
}
use libixp.Wire.Types.{Fcall}
use libixp.Client.{CFid, Client, dofcall, dofcall-some}
use libixp.Client.Transfer.{min, min_lem, put, pwrite_loop, _pwrite, ixp_pwrite}

-- The answer to a write of `n` bytes.
pub record IsWritten (n : ℕ) (r : Fcall) : Type 0 where
  pub type : r.type ≡ 119
  pub count : r.count ≡ n

-- The service answers every write at the end of the fid's file with its count, and appends its data;
-- `content` is the file in a state of the service.
abbrev pub Appends : {W : Type 0} → (Fcall → W → Option Fcall × W) → ℕ → (W → List ℕ) → Type 0
Appends {W} rpc fid content =
    (q : Fcall) (w : W)
    → q.type ≡ 118
    → q.fid ≡ fid
    → q.offset ≡ length (content w)
    → (r : Fcall) × (w' : W) × (rpc q w ≡ (some r, w'))
      × IsWritten q.count r
      × (content w' ≡ content w ++ q.payload)

module _ {W : Type 0} (n left len : ℕ) (again : ℕ → Client W → Option (Option ℕ × Client W))
    (r : Fcall) (count : r.count ≡ n) (fits : len + n < 2 ^ 31) (c : Client W) where
  full : ltb n n ≡ false
  full = ge→ltb n n (omega arith)

  no_wrap : ltb (len + n) (2 ^ 31) ≡ true
  no_wrap = lt→ltb (len + n) (2 ^ 31) fits

  put-more :
      (rest : ℕ) (c' : Client W)
      → ltb n left ≡ true
      → again n c ≡ some (some rest, c')
      → n + rest ≡ left
      → put n left len again (some r, c) ≡ some (some left, c')
  unfolding put
  put-more rest c' t runs e = rw (count, no_wrap, full, t, runs, e) refl

  put-last : n ≡ left → put n left len again (some r, c) ≡ some (some left, c)
  unfolding put
  put-last e =
      let stop : ltb n left ≡ false = ge→ltb n left (omega (arith, e)) in
      let sum : n + 0 ≡ left = omega (arith, e) in rw (count, no_wrap, full, stop, sum) refl

module _ {W : Type 0} (rpc : Fcall → W → Option Fcall × W) (stack : Fcall) (f : CFid)
    (content : W → List ℕ) (appends : Appends rpc f.fid content) (unit : 0 < f.iounit)
    (int : f.iounit < 2 ^ 31) where
  -- The loop's result: all is written, behind what was there.
  abbrev Wrote : List ℕ → Client W → Option (Option ℕ × Client W) → Type 0
  Wrote buf c x =
      (c' : Client W) × (x ≡ some (some (length buf), c'))
      × (content c'.world ≡ content c.world ++ buf)

  loop-Wrote :
      (fuel : ℕ) (buf : List ℕ) (len offset : ℕ) (c : Client W)
      → length buf < fuel
      → len + length buf < 2 ^ 31
      → offset + length buf < 2 ^ 64
      → offset ≡ length (content c.world)
      → Wrote buf c (pwrite_loop rpc fuel stack f buf len offset c)
  unfolding pwrite_loop
  loop-Wrote zero buf len offset c lt small fits at = absurd (omega (arith, lt))
  loop-Wrote (suc fuel) buf len offset c lt small fits at =
      let n = min (length buf) f.iounit in
      let (le, some_pos, all) = min_lem (length buf) f.iounit (omega (arith, small)) int unit in
      let inside : ltb (length buf) n ≡ false = ge→ltb (length buf) n le in
      let wrap : len + n < 2 ^ 31 = omega (arith, small, le) in
      let q : Fcall = record stack {
        type = 118;
        fid = f.fid;
        offset = offset;
        payload = take n buf;
        count = n;
      } in
      let (r, w', e, d, app) = appends q c.world refl refl at in
      let c1 : Client W = record c { world = w' } in
      let call : dofcall rpc q c ≡ (some r, c1) =
        dofcall-some rpc q c r w' e d.type (ap (λ t. t == 107) d.type) in
      let again =
        λ (k : ℕ). pwrite_loop rpc fuel stack f (drop k buf) (len + k) ((offset + k) % 2 ^ 64) in
      rw inside (elim (Bool-cases (ltb n (length buf))) [
        | inl t ↦
            let some_bytes : 0 < n = some_pos (ground (arith, t)) in
            let near : (offset + n) % 2 ^ 64 ≡ offset + n = omega (arith, fits, le) in
            let rest = length-drop n buf in
            let (c', runs, end) =
              loop-Wrote fuel (drop n buf) (len + n) (offset + n) c1
                (omega (arith, rest, lt, some_bytes, le)) (omega (arith, rest, small, le))
                (omega (arith, rest, fits, le))
                (omega (
                  arith,
                  at,
                  ap length app,
                  length-append (content c.world) (take n buf),
                  length-take n buf,
                  le,
                )) in
            (
              c',
              ap (put n (length buf) len again) call
                  ∙ put-more n (length buf) len again r d.count wrap c1 (length (drop n buf)) c' t
                      (ap (λ o. pwrite_loop rpc fuel stack f (drop n buf) (len + n) o c1) near
                        ∙ runs)
                      (omega (arith, rest, le)),
              end
                  ∙ ap (λ l. l ++ drop n buf) app
                  ∙ append_assoc (content c.world) (take n buf) (drop n buf)
                  ∙ ap (λ l. content c.world ++ l) (take-append-drop n buf),
            )
        | inr t ↦
            let whole : n ≡ length buf = all t in
            (
              c1,
              ap (put n (length buf) len again) call
                  ∙ put-last n (length buf) len again r d.count wrap c1 whole,
              app ∙ ap (λ l. content c.world ++ l) (take_all n buf (omega (arith, whole))),
            )
      ])

  -- If the service appends the data of every write at the end of the fid's file and answers its count,
  -- the fid's iounit is not 0, it and the number of bytes are below 2 ^ 31, and with the offset these
  -- are below 2 ^ 64, then ixp_pwrite at the end of the file writes all the bytes, in
  -- order and behind what was there, returns their number, and does at most one turn more than
  -- there are bytes.
  pub pwrite-Wrote :
      (fuel : ℕ) (buf : List ℕ) (offset : ℕ) (c : Client W)
      → length buf < fuel
      → length buf < 2 ^ 31
      → offset + length buf < 2 ^ 64
      → offset ≡ length (content c.world)
      → (c' : Client W) × (ixp_pwrite rpc fuel stack f buf offset c ≡ some (some (length buf), c'))
        × (content c'.world ≡ content c.world ++ buf)
  unfolding ixp_pwrite _pwrite
  pwrite-Wrote fuel buf offset c lt small fits at =
      loop-Wrote fuel buf 0 offset c lt (omega (arith, small)) fits at
