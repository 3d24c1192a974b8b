-- ===== src/Request/Safe.antt =====
-- handlereq on a well-formed connection, an arm at a time.
use libixp.Prelude.{
  ℕ, bit_and, bit_or, ◌≡◌, ◌≢◌, ◌⊎◌, inl, inr, refl, ◌∙◌, Bool, true, false, not, ◌&&◌, ◌||◌,
  Option, none, some, get_or, length, ◌==◌, ltb, arith, Bool-cases, ==_iff, lt→ltb,
}
use libixp.Map.{ixp_mapget}
use libixp.Map.Chain.{found}
use libixp.Map.Refine.{view}
use libixp.Wire.Types.{
  FType, ftype, t_version, t_attach, t_flush, t_walk, t_open, t_create, t_read, t_write, t_clunk,
  t_remove, t_stat, t_wstat,
}
use libixp.Request.{
  enofunc, eopen, enoread, enotdir, eisdir, walk_open, write_unopened, wstat_type, wstat_dev,
  wstat_qid, wstat_muid, wstat_dmdir, Fid, Conn, Req, Call, is_dir, srv_clunk, srv_flush,
  srv_create, srv_open, srv_read, srv_remove, srv_stat, srv_walk, srv_write, srv_wstat,
}
use libixp.Request.Handle.{
  handle_version, attached, handle_flush, handle_create, handle_open, handle_read, walked,
  handle_walk, handle_write, handle_wstat, dispatch, handlereq,
}
use libixp.Request.Fids.{IsConn, Created, new_fid, createfid-Created, live_index}
use libixp.Request.Allowed.{
  HasFid, IsUnopened, MayWalk, IsSafe, refuse-IsSafe, call-IsSafe, on_pointer-IsSafe, on_fid-IsSafe,
}

same : (a b : ℕ) → not (a == b) ≡ false → a ≡ b
same a b h = ground arith

not-false : (b : Bool) → not b ≡ false → b ≡ true
not-false true h = refl
not-false false h = absurd (cc h)

one_of : (x a b : ℕ) → (not (x == a) && not (x == b)) ≡ false → (x ≡ a) ⊎ (x ≡ b)
one_of x a b h = elim (Bool-cases (x == a)) [
  | inl t ↦ inl ((==_iff x a).0 t)
  | inr t ↦ inr (same x b (ground (arith, h, t)))
]

then_false : (a b : Bool) → (a && b) ≡ false → a ≡ true → b ≡ false
then_false true b h t = h
then_false false b h t = absurd (cc t)

neither : (x a b : ℕ) → ((x == a) || (x == b)) ≡ false → (x ≢ a) × (x ≢ b)
neither x a b h = (λ e. ground (arith, h, e), λ e. ground (arith, h, e))

all_same :
    (a a' b b' d d' : ℕ)
    → (not (a == a') || not (b == b') || not (d == d')) ≡ false
    → (a ≡ a') × (b ≡ b') × (d ≡ d')
all_same a a' b b' d d' h = (ground (arith, h), ground (arith, h), ground (arith, h))

-- A pointer that createfid returned.
Created-fid :
    (taken : Bool) (fid : ℕ) (c : Conn) (p : ℕ) (c' : Conn)
    → Created taken fid c (some p) c'
    → HasFid (some p) c' fid IsUnopened
Created-fid true fid c p c' made = absurd (cc made.result)
Created-fid false fid c p c' made =
    let e : p ≡ length c.fids = cc made.result in (new_fid fid, rw e made.fresh, refl, refl)

module _ (has : Call → Bool) where
  module _ (r : Req) (c : Conn) (h : IsConn c) where
    attached-IsSafe :
        (res : Option ℕ) (c' : Conn)
        → Created (found (view c.fidmap r.ifcall.fid)) r.ifcall.fid c res c'
        → IsSafe has (attached r (some (res, c')))
    unfolding attached
    attached-IsSafe none c' made = (made.keeps, tt)
    attached-IsSafe (some p) c' made = (
      made.keeps,
      (inl refl, Created-fid (found (view c.fidmap r.ifcall.fid)) r.ifcall.fid c p c' made),
    )

  flush-IsSafe :
      (r : Req) (c : Conn) (o : Option ℕ) → IsConn c → IsSafe has (handle_flush has r c o)
  unfolding handle_flush
  flush-IsSafe r c none h = (h, tt)
  flush-IsSafe r c (some q) h =
      call-IsSafe has (some enofunc) srv_flush (record r { oldreq = some q }) c h (λ e. cc e)

  -- The arms that read the fid at `p`, which the request points to.
  module _ (r : Req) (c : Conn) (h : IsConn c) (p : ℕ) (f : Fid) (at : r.fid ≡ some p)
      (live : get_or c.fids p none ≡ some f) (num : f.fid ≡ r.ifcall.fid) where
    held : (P : Fid → Type 0) → P f → HasFid r.fid c r.ifcall.fid P
    held P x = rw at (f, live, num, x)

    create-IsSafe : IsSafe has (handle_create has r c f)
    unfolding handle_create
    create-IsSafe = refuse-IsSafe has _ eopen r c _ h λ e. refuse-IsSafe has _ enotdir r c _ h λ d.
        call-IsSafe has (some enofunc) srv_create r c h
          (held _ (same f.omode 255 e, not-false (is_dir f) d))

    open-IsSafe : IsSafe has (handle_open has r c f)
    unfolding handle_open
    open-IsSafe = refuse-IsSafe has _ eisdir r c _ h λ e.
        call-IsSafe has (some enofunc) srv_open _ c h (
          held (λ g. is_dir g ≡ true → bit_or r.ifcall.mode 64 ≡ 64)
            (λ d. same (bit_or r.ifcall.mode 64) 64 (then_false (is_dir f) _ e d)))

    read-IsSafe : IsSafe has (handle_read has r c f)
    unfolding handle_read
    read-IsSafe =
        refuse-IsSafe has _ enoread r c _ h
          λ e. call-IsSafe has (some enofunc) srv_read r c h (held _ (neither f.omode 255 1 e))

    write-IsSafe : IsSafe has (handle_write has r c f)
    unfolding handle_write
    write-IsSafe = refuse-IsSafe has _ write_unopened r c _ h λ e.
        call-IsSafe has (some enofunc) srv_write r c h (held _ (one_of (bit_and f.omode 3) 1 2 e))

    wstat-IsSafe : IsSafe has (handle_wstat has r c f)
    unfolding handle_wstat
    wstat-IsSafe =
        let s = r.ifcall.twstat in
        refuse-IsSafe has _ wstat_type r c _ h λ t. refuse-IsSafe has _ wstat_dev r c _ h λ d.
          refuse-IsSafe has _ wstat_qid r c _ h λ q.
            let same_qid = all_same s.qid.type _ s.qid.version _ s.qid.path _ q in
            refuse-IsSafe has _ wstat_muid r c _ h λ m. refuse-IsSafe has _ wstat_dmdir r c _ h λ x.
              call-IsSafe has (some enofunc) srv_wstat r c h
                (held _ (same s.type _ t, same s.dev _ d, same_qid.0, same_qid.1, same_qid.2, m, x))

    -- TWalk, once newfid is there, in the connection that createfid leaves.
    walked-IsSafe :
        (res : Option ℕ) (c' : Conn)
        → Created (found (view c.fidmap r.ifcall.newfid)) r.ifcall.newfid c res c'
        → MayWalk r.ifcall f
        → IsSafe has (walked has r (some (res, c')))
    unfolding walked
    walked-IsSafe none c' made may = (made.keeps, tt)
    walked-IsSafe (some q) c' made may = call-IsSafe has (some enofunc) srv_walk _ c' made.keeps (
      rw at (f, made.others p (live_index c.fids p f live) ∙ live, num, may),
      Created-fid (found (view c.fidmap r.ifcall.newfid)) r.ifcall.newfid c q c' made,
    )

    walk-IsSafe : IsSafe has (handle_walk has r c p f)
    unfolding handle_walk walked
    walk-IsSafe = refuse-IsSafe has _ walk_open r c _ h λ e.
        refuse-IsSafe has _ enotdir r c _ h λ d.
          let unopened = same f.omode 255 e in
          let may : MayWalk r.ifcall f = (
            unopened,
            λ lt.
                not-false (is_dir f)
                  (then_false (ltb 0 r.ifcall.nwname) _ d (lt→ltb 0 r.ifcall.nwname lt)),
          ) in
          elim (Bool-cases (r.ifcall.fid == r.ifcall.newfid)) [
            | inl t ↦ rw t (
                call-IsSafe has (some enofunc) srv_walk (record r { newfid = some p }) c h
                  (
                    held (MayWalk r.ifcall) may,
                    (f, live, num ∙ (==_iff r.ifcall.fid r.ifcall.newfid).0 t, unopened),
                  ))
            | inr t ↦
                let (res, c', eq, made) = createfid-Created c h r.ifcall.newfid in
                rw (t, eq) (walked-IsSafe res c' made may)
          ]

  dispatch-IsSafe : (t : FType) (r : Req) (c : Conn) → IsConn c → IsSafe has (dispatch has t r c)
  unfolding dispatch handle_version
  dispatch-IsSafe t_version r c h = (h, tt)
  dispatch-IsSafe t_attach r c h =
      let (res, c', eq, made) = createfid-Created c h r.ifcall.fid in
      rw eq (attached-IsSafe r c h res c' made)
  dispatch-IsSafe t_clunk r c h =
      on_pointer-IsSafe has r c h _
        λ p f live num. call-IsSafe has none srv_clunk _ c h (f, live, num, tt)
  dispatch-IsSafe t_flush r c h = flush-IsSafe r c (ixp_mapget c.tagmap r.ifcall.oldtag) h
  dispatch-IsSafe t_create r c h =
      on_fid-IsSafe has r c h _ λ p f live num. create-IsSafe _ c h p f refl live num
  dispatch-IsSafe t_open r c h =
      on_fid-IsSafe has r c h _ λ p f live num. open-IsSafe _ c h p f refl live num
  dispatch-IsSafe t_read r c h =
      on_fid-IsSafe has r c h _ λ p f live num. read-IsSafe _ c h p f refl live num
  dispatch-IsSafe t_remove r c h =
      on_pointer-IsSafe has r c h _
        λ p f live num. call-IsSafe has (some enofunc) srv_remove _ c h (f, live, num, tt)
  dispatch-IsSafe t_stat r c h =
      on_pointer-IsSafe has r c h _
        λ p f live num. call-IsSafe has (some enofunc) srv_stat _ c h (f, live, num, tt)
  dispatch-IsSafe t_walk r c h =
      on_fid-IsSafe has r c h _ λ p f live num. walk-IsSafe _ c h p f refl live num
  dispatch-IsSafe t_write r c h =
      on_fid-IsSafe has r c h _ λ p f live num. write-IsSafe _ c h p f refl live num
  dispatch-IsSafe t_wstat r c h =
      on_fid-IsSafe has r c h _ λ p f live num. wstat-IsSafe _ c h p f refl live num
  dispatch-IsSafe _ r c h = (h, tt)

  -- On a connection whose map of fids is well formed handlereq returns, without a use of a freed fid,
  -- and leaves it well formed. It calls a function of the service only if there is one, `attach`
  -- apart, and the request's fid is live, with its number and in the state that the call needs: not
  -- open for attach, create and walk, a directory for create and for a walk with names, a mode of
  -- reading for open on a directory, open and not exactly for writing for read, open for writing for
  -- write, and for wstat nothing asked that may not change; flush has its old request, and walk a
  -- new fid that is live and not open.
  pub handlereq-IsSafe : (r : Req) (c : Conn) → IsConn c → IsSafe has (handlereq has r c)
  unfolding handlereq
  handlereq-IsSafe r c h = dispatch-IsSafe (ftype r.ifcall.type) r c h
