-- ===== src/Client/Transfer.antt =====
-- lib/libixp/client.c: reads and writes. `n` and `len` are 32 bits and the offset is 64
-- bits; `none` is also an access outside the buffer, or a length that is no `int`.
pub mod Reads
pub mod Writes
use libixp.Prelude.{
  ℕ, zero, suc, ◌+◌, ◌-◌, ◌%◌, ◌^◌, ◌<◌, ◌≤◌, ◌≡◌, arith, Bool, true, false, not, ◌||◌, List, [],
  ◌∷◌, ◌++◌, Option, none, some, take, drop, length, ◌==◌, ltb, if◌then◌else◌,
}
use libixp.Wire.Types.{Fcall}
use libixp.Client.{CFid, Client, dofcall}

-- min, of numbers converted to `int`, as 32 bits
unfoldable pub min : ℕ → ℕ → ℕ
min a b = if ltb ((a + 2 ^ 31) % 2 ^ 32) ((b + 2 ^ 31) % 2 ^ 32) then a % 2 ^ 32 else b % 2 ^ 32

-- What _pread copied to the buffer, or -1; and the length that _pwrite returns, or -1.
abbrev pub Bytes : Type 0 → Type 0
Bytes W = Option (List ℕ) × Client W

abbrev pub Length : Type 0 → Type 0
Length W = Option ℕ × Client W

module _ {W : Type 0} where
  abbrev pub prepend : List ℕ → Option (Bytes W) → Option (Bytes W)
  prepend bs none = none
  prepend bs (some (none, c)) = some (none, c)
  prepend bs (some (some rest, c)) = some (some (bs ++ rest), c)

  -- What _pread does with the answer to a read of `n` bytes, where there is room for `left` and `len` are
  -- read; `again` is the next turn, from the bytes
  -- that were read on. An answer's data has its count.
  unfoldable pub got :
      ℕ → ℕ → ℕ → (ℕ → Client W → Option (Bytes W)) → Option Fcall × Client W → Option (Bytes W)
  got n left len again (none, c) = some (none, c)
  got n left len again (some r, c) =
      if ltb n r.count
      then some (none, c)
      else if ltb left r.count || not (ltb (len + r.count) (2 ^ 31))
      then none
      else prepend (take r.count r.payload)
          (if ltb r.count n then some (some [], c) else again r.count c)

  -- The fid's offset is 32 bits.
  abbrev advanced : CFid → Option (Bytes W) → Option (Option (List ℕ) × CFid × Client W)
  advanced f none = none
  advanced f (some (none, c)) = some (none, f, c)
  advanced f (some (some bs, c)) =
      some (some bs, record f { offset = (f.offset + length bs) % 2 ^ 32 }, c)

  abbrev pub more : ℕ → Option (Length W) → Option (Length W)
  more k none = none
  more k (some (none, c)) = some (none, c)
  more k (some (some len, c)) = some (some (k + len), c)

  -- What _pwrite does with the answer to a write of `n` bytes out of `left`, where `len` are
  -- written.
  unfoldable pub put :
      ℕ → ℕ → ℕ → (ℕ → Client W → Option (Length W)) → Option Fcall × Client W → Option (Length W)
  put n left len again (none, c) = some (none, c)
  put n left len again (some r, c) =
      if ltb (len + r.count) (2 ^ 31)
      then more r.count (
          if ltb r.count n
          then some (some 0, c)
          else if ltb r.count left
          then again r.count c
          else some (some 0, c))
      else none

  abbrev moved : CFid → Option (Length W) → Option (Option ℕ × CFid × Client W)
  moved f none = none
  moved f (some (none, c)) = some (none, f, c)
  moved f (some (some n, c)) = some (some n, record f { offset = (f.offset + n) % 2 ^ 32 }, c)

module _ {W : Type 0} (rpc : Fcall → W → Option Fcall × W) where
  -- The loop of _pread, with `count - len` and `len`, on fuel; TRead is 116.
  unfoldable pub pread_loop : ℕ → Fcall → CFid → ℕ → ℕ → ℕ → Client W → Option (Bytes W)
  unfolding got min
  pread_loop zero stack f left len offset c = none
  pread_loop (suc fuel) stack f left len offset c =
      let n = min left f.iounit in
      let next =
        got n left len (λ k. pread_loop fuel stack f (left - k) (len + k) ((offset + k) % 2 ^ 64))
          (dofcall rpc (record stack { type = 116; fid = f.fid; offset = offset; count = n }) c) in
      if left == 0 then some (some [], c) else next

  unfoldable pub _pread : ℕ → Fcall → CFid → ℕ → ℕ → Client W → Option (Bytes W)
  unfolding pread_loop
  _pread fuel stack f count offset c = pread_loop fuel stack f count 0 offset c

  unfoldable pub ixp_read :
      ℕ → Fcall → CFid → ℕ → Client W → Option (Option (List ℕ) × CFid × Client W)
  ixp_read fuel stack f count c = advanced f (_pread fuel stack f count f.offset c)

  unfoldable pub ixp_pread : ℕ → Fcall → CFid → ℕ → ℕ → Client W → Option (Bytes W)
  ixp_pread fuel stack f count offset c = _pread fuel stack f count offset c

  -- The loop of _pwrite, with the bytes that are left and `len`, on fuel; TWrite is 118.
  unfoldable pub pwrite_loop : ℕ → Fcall → CFid → List ℕ → ℕ → ℕ → Client W → Option (Length W)
  unfolding put min
  pwrite_loop zero stack f buf len offset c = none
  pwrite_loop (suc fuel) stack f buf len offset c =
      let n = min (length buf) f.iounit in
      if ltb (length buf) n
      then none
      else put n (length buf) len
          (λ k. pwrite_loop fuel stack f (drop k buf) (len + k) ((offset + k) % 2 ^ 64))
          (dofcall rpc
            (record stack {
              type = 118;
              fid = f.fid;
              offset = offset;
              payload = take n buf;
              count = n;
            })
            c)

  unfoldable pub _pwrite : ℕ → Fcall → CFid → List ℕ → ℕ → Client W → Option (Length W)
  unfolding pwrite_loop
  _pwrite fuel stack f buf offset c = pwrite_loop fuel stack f buf 0 offset c

  unfoldable pub ixp_write :
      ℕ → Fcall → CFid → List ℕ → Client W → Option (Option ℕ × CFid × Client W)
  ixp_write fuel stack f buf c = moved f (_pwrite fuel stack f buf f.offset c)

  unfoldable pub ixp_pwrite : ℕ → Fcall → CFid → List ℕ → ℕ → Client W → Option (Length W)
  ixp_pwrite fuel stack f buf offset c = _pwrite fuel stack f buf offset c

-- Of numbers that are `int`s.
pub min_lem :
    (a b : ℕ)
    → a < 2 ^ 31
    → b < 2 ^ 31
    → 0 < b
    → (min a b ≤ a) × (0 < a → 0 < min a b) × (ltb (min a b) a ≡ false → min a b ≡ a)
unfolding min
min_lem a b la lb pos =
    let ea : (a + 2 ^ 31) % 2 ^ 32 ≡ a + 2 ^ 31 = omega (arith, la) in
    let eb : (b + 2 ^ 31) % 2 ^ 32 ≡ b + 2 ^ 31 = omega (arith, lb) in
    let sa : a % 2 ^ 32 ≡ a = omega (arith, la) in
    let sb : b % 2 ^ 32 ≡ b = omega (arith, lb) in
    rw (ea, eb, sa, sb) (ground arith, λ p. ground (arith, p, pos), λ t. ground (arith, t))
