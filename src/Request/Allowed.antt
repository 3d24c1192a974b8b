-- ===== src/Request/Allowed.antt =====
-- What holds of a connection and a request when handlereq calls a function of the service.
use libixp.Prelude.{
  ℕ, ◌-◌, ◌^◌, ◌<◌, bit_and, bit_or, ◌≡◌, ◌≢◌, ◌⊎◌, inl, inr, refl, Bool, true, false, Option, none,
  some, get_or, Bool-cases,
}
use libixp.Map.Chain.{or_nil}
use libixp.Map.Refine.{view, mapget-eq-view}
use libixp.Wire.Types.{Fcall}
use libixp.Request.{
  Fid, Conn, Req, Error, Call, Next, Result, respond, call, nonempty, is_dir, refuse_if, call_or,
  with_fid, deref, srv_attach, srv_clunk, srv_flush, srv_create, srv_open, srv_read, srv_remove,
  srv_stat, srv_walk, srv_write, srv_wstat,
}
use libixp.Request.Handle.{changes_dir, on_pointer, on_fid}
use libixp.Request.Fids.{IsEntry, IsConn}

-- The pointer is to a live fid with the number `k`, of which `P` holds.
abbrev pub HasFid : Option ℕ → Conn → ℕ → (Fid → Type 0) → Type 0
HasFid none c k P = ⊥
HasFid (some p) c k P = (f : Fid) × (get_or c.fids p none ≡ some f) × (f.fid ≡ k) × P f

abbrev pub IsUnopened : Fid → Type 0
IsUnopened f = f.omode ≡ 255

abbrev pub MayWalk : Fcall → Fid → Type 0
MayWalk i f = (f.omode ≡ 255) × (0 < i.nwname → is_dir f ≡ true)

-- A wstat leaves the type, the device, the qid and the last writer, and whether it is a directory.
abbrev pub MayWstat : Fcall → Fid → Type 0
MayWstat i f =
    (i.twstat.type ≡ 2 ^ 16 - 1)
    × (i.twstat.dev ≡ 2 ^ 32 - 1)
    × (i.twstat.qid.type ≡ 2 ^ 8 - 1)
    × (i.twstat.qid.version ≡ 2 ^ 32 - 1)
    × (i.twstat.qid.path ≡ 2 ^ 64 - 1)
    × (nonempty i.twstat.muid ≡ false)
    × (changes_dir i.twstat f ≡ false)

-- The state in which each function may be called.
abbrev pub IsReady : Call → Req → Conn → Type 0
IsReady srv_attach r c = HasFid r.fid c r.ifcall.fid IsUnopened
IsReady srv_clunk r c = HasFid r.fid c r.ifcall.fid (λ f. Unit)
IsReady srv_flush r c = r.oldreq ≢ none
IsReady srv_create r c = HasFid r.fid c r.ifcall.fid (λ f. (f.omode ≡ 255) × (is_dir f ≡ true))
IsReady srv_open r c =
    HasFid r.fid c r.ifcall.fid (λ f. is_dir f ≡ true → bit_or r.ifcall.mode 64 ≡ 64)
IsReady srv_read r c = HasFid r.fid c r.ifcall.fid (λ f. (f.omode ≢ 255) × (f.omode ≢ 1))
IsReady srv_remove r c = HasFid r.fid c r.ifcall.fid (λ f. Unit)
IsReady srv_stat r c = HasFid r.fid c r.ifcall.fid (λ f. Unit)
IsReady srv_walk r c =
    HasFid r.fid c r.ifcall.fid (MayWalk r.ifcall) × HasFid r.newfid c r.ifcall.newfid IsUnopened
IsReady srv_write r c =
    HasFid r.fid c r.ifcall.fid (λ f. (bit_and f.omode 3 ≡ 1) ⊎ (bit_and f.omode 3 ≡ 2))
IsReady srv_wstat r c = HasFid r.fid c r.ifcall.fid (MayWstat r.ifcall)

-- Answers are always permitted, calls of a function only when it is there and the state is ready.
abbrev pub IsPermitted : (Call → Bool) → Next → Req → Conn → Type 0
IsPermitted has (respond e) r c = Unit
IsPermitted has (call h) r c = ((h ≡ srv_attach) ⊎ (has h ≡ true)) × IsReady h r c

-- It returns, to a well-formed connection, and what it calls is permitted.
abbrev pub IsSafe : (Call → Bool) → Result → Type 0
IsSafe has none = ⊥
IsSafe has (some (next, r, c)) = IsConn c × IsPermitted has next r c

module _ (has : Call → Bool) where
  pub refuse-IsSafe :
      (b : Bool) (e : Error) (r : Req) (c : Conn) (rest : Result)
      → IsConn c
      → (b ≡ false → IsSafe has rest)
      → IsSafe has (refuse_if b e r c rest)
  refuse-IsSafe true e r c rest h k = (h, tt)
  refuse-IsSafe false e r c rest h k = k refl

  pub call-IsSafe :
      (o : Option Error) (f : Call) (r : Req) (c : Conn)
      → IsConn c
      → IsReady f r c
      → IsSafe has (call_or has o f r c)
  call-IsSafe o f r c h ready = elim (Bool-cases (has f)) [
    | inl t ↦ rw t (h, (inr t, ready))
    | inr t ↦ rw t (h, tt)
  ]

  pointer_cases :
      (e : Option (Option ℕ)) (r : Req) (c : Conn) (rest : ℕ → Req → Result)
      → IsConn c
      → IsEntry c.fids r.ifcall.fid e
      → ((p : ℕ) (f : Fid)
          → get_or c.fids p none ≡ some f
          → f.fid ≡ r.ifcall.fid
          → IsSafe has (rest p (record r { fid = some p })))
      → IsSafe has (with_fid (or_nil e) r c rest)
  pointer_cases none r c rest h entry k = (h, tt)
  pointer_cases (some none) r c rest h entry k = elim entry [ ]
  pointer_cases (some (some p)) r c rest h (f, live, num) k = k p f live num

  module _ (r : Req) (c : Conn) (h : IsConn c) where
    pub on_pointer-IsSafe :
        (rest : ℕ → Req → Result)
        → ((p : ℕ) (f : Fid)
            → get_or c.fids p none ≡ some f
            → f.fid ≡ r.ifcall.fid
            → IsSafe has (rest p (record r { fid = some p })))
        → IsSafe has (on_pointer r c rest)
    unfolding on_pointer
    on_pointer-IsSafe rest k =
        rw (mapget-eq-view c.fidmap h.map_ok r.ifcall.fid)
          (pointer_cases (view c.fidmap r.ifcall.fid) r c rest h (h.entries r.ifcall.fid) k)

    pub on_fid-IsSafe :
        (rest : ℕ → Req → Fid → Result)
        → ((p : ℕ) (f : Fid)
            → get_or c.fids p none ≡ some f
            → f.fid ≡ r.ifcall.fid
            → IsSafe has (rest p (record r { fid = some p }) f))
        → IsSafe has (on_fid r c rest)
    unfolding on_fid
    on_fid-IsSafe rest k =
        on_pointer-IsSafe (λ p r'. deref (get_or c.fids p none) (rest p r'))
          (λ p f live num. rw live (k p f live num))
