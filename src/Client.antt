-- ===== src/Client.antt =====
-- lib/libixp/client.c: the fids of a client and its calls. The service is a step on a state `W`: the
-- answer that muxrpc returns to an Fcall with the mux's tag, or `none` for nil. The locks are left out.
pub mod Files
pub mod Stats
pub mod Transfer
pub mod Fids
mod Tests
use libixp.Prelude.{
  ℕ, zero, suc, ◌+◌, ◌-◌, ◌%◌, ◌^◌, ◌≡◌, refl, Bool, true, false, not, ◌||◌, List, [], ◌∷◌, ◌++◌,
  Option, none, some, get_or, get_elem?, map, drop, length, ◌==◌, ==_iff, ltb, if◌then◌else◌,
}
use libixp.Wire.Types.{Qid, Fcall}
use libixp.Request.{no_qid, same_string}
use libixp.Request.Handle.{version_9p2000}

-- struct IxpCFid; `client` is that of the one connection, `next` the list of free fids.
pub record CFid : Type 0 where
  pub fid : ℕ
  pub qid : Qid
  pub mode : ℕ
  pub is_open : Bool
  pub iounit : ℕ
  pub offset : ℕ

-- struct IxpClient without what rpc.c and the buffers keep.
pub record Client (W : Type 0) : Type 0 where
  pub msize : ℕ
  pub lastfid : ℕ
  pub freefid : List CFid
  pub world : W

-- `n ^ 1`
abbrev pub flip_low : ℕ → ℕ
flip_low n = if n % 2 == 0 then n + 1 else n - 1

-- The checks of dofcall; the answer takes the place of the Fcall.
unfoldable pub checked : ℕ → Option Fcall → Option Fcall
checked type none = none
checked type (some r) =
    if r.type == 107 then none else if r.type == flip_low type then some r else none

module _ {W : Type 0} where
  unfoldable pub fresh_fid : Client W → CFid × Client W
  fresh_fid c =
      let n = (c.lastfid + 1) % 2 ^ 32 in
      (
        record { fid = n; qid = no_qid; mode = 0; is_open = false; iounit = 0; offset = 0 },
        record c { lastfid = n },
      )

  -- By the list of free fids.
  unfoldable pub take_fid : Client W → List CFid → CFid × Client W
  unfolding fresh_fid
  take_fid c [] = fresh_fid c
  take_fid c (f ∷ fs) = (record f { is_open = false }, record c { freefid = fs })

  unfoldable pub getfid : Client W → CFid × Client W
  unfolding take_fid
  getfid c = take_fid c c.freefid

  unfoldable pub putfid : CFid → Client W → Client W
  putfid f c =
      if f.fid == c.lastfid
      then record c { lastfid = c.lastfid - 1 }
      else record c { freefid = f ∷ c.freefid }

  module _ (rpc : Fcall → W → Option Fcall × W) where
    unfoldable pub dofcall : Fcall → Client W → Option Fcall × Client W
    unfolding checked
    dofcall f c = let (ret, w) = rpc f c.world in (checked f.type ret, record c { world = w })

    -- RootFid is 1, IXP_MAX_MSG 8192, IXP_NOTAG 65535 and IXP_NOFID 2 ^ 32 - 1. In what follows
    -- `stack` is what an Fcall on the stack holds before its stores.
    unfoldable pub attach : Fcall → List ℕ → Option Fcall × Client W → Option (Client W)
    attach stack user (none, c) = none
    attach stack user (some r, c) = some c

    unfoldable pub versioned : Fcall → List ℕ → Option Fcall × Client W → Option (Client W)
    unfolding dofcall attach
    versioned stack user (none, c) = none
    versioned stack user (some v, c) =
        if not (same_string v.version version_9p2000) || ltb v.msize 24 || ltb 8192 v.msize
        then none
        else attach stack user (
            dofcall (record v { type = 104; fid = 1; afid = 2 ^ 32 - 1; uname = user; aname = [] })
              (record c { msize = v.msize }))

    unfoldable pub ixp_mountfd : Fcall → List ℕ → W → Option (Client W)
    unfolding dofcall versioned
    ixp_mountfd stack user w = versioned stack user (
        dofcall (record stack { type = 100; msize = 8192; version = version_9p2000 })
          (record { msize = 0; lastfid = 1; freefid = []; world = w }))

same : (n : ℕ) → (n == n) ≡ true
same n = (==_iff n n).1 refl

module _ {W : Type 0} (rpc : Fcall → W → Option Fcall × W) where
  pub dofcall-some :
      (q : Fcall) (c : Client W) (r : Fcall) (w : W)
      → rpc q c.world ≡ (some r, w)
      → r.type ≡ flip_low q.type
      → (r.type == 107) ≡ false
      → dofcall rpc q c ≡ (some r, record c { world = w })
  unfolding dofcall checked
  dofcall-some q c r w e t ne = rw (e, ne, t, same (flip_low q.type)) refl
