-- ===== src/Request.antt =====
-- lib/libixp/request.c: the fids of a connection, and the dispatch of a request to the service's
-- functions.
pub mod Fids
pub mod Destroy
pub mod Handle
pub mod Allowed
pub mod Safe
pub mod Respond
pub mod Settled
pub mod Answer
pub mod Receive
pub mod Examples
mod Tests
use libixp.Prelude.{
  ℕ, zero, suc, ◌+◌, ◌-◌, ◌/◌, ◌^◌, bit_and, bit_or, Bool, true, false, not, ◌&&◌, ◌||◌, List, [],
  ◌∷◌, ◌++◌, Option, none, some, get_or, set, length, ◌==◌, ltb, if◌then◌else◌,
}
use libixp.Map.{IxpMap, ixp_mapinsert, ixp_mapget, ixp_maprm, ixp_mapfree}
use libixp.Wire.Msg.{Msg}
use libixp.Transport.{Write}
use libixp.Wire.Types.{
  Qid, Stat, Fcall, ftype, t_version, t_attach, t_clunk, t_flush, t_create, t_open, t_read,
  t_remove, t_stat, t_walk, t_write, t_wstat,
}

-- struct IxpFid; `omode` is the byte of a `signed char`, so 255 is -1. `uid` and `aux` are the
-- handlers', `conn` and `map` are those of the one connection.
pub record Fid : Type 0 where
  pub fid : ℕ
  pub qid : Qid
  pub omode : ℕ
  pub iounit : ℕ

-- struct Ixp9Req; nil is `none`. `aux` is the handlers'.
pub record Req : Type 0 where
  pub fid : Option ℕ
  pub newfid : Option ℕ
  pub oldreq : Option ℕ
  pub ifcall : Fcall
  pub ofcall : Fcall

-- struct Ixp9Conn. A pointer to a fid or a request is its index in `fids` or `reqs`, where a freed one
-- is `none`. `has_conn` is `conn != nil`, `is_freed` that the structure is freed, `rsize` is `rmsg.size`.
-- The file descriptor is the results of the writes of each ixp_sendmsg to come, and the bytes written.
pub record Conn : Type 0 where
  pub tagmap : IxpMap ℕ
  pub fidmap : IxpMap ℕ
  pub fids : List (Option Fid)
  pub reqs : List (Option Req)
  pub ref : ℕ
  pub has_conn : Bool
  pub is_freed : Bool
  pub rsize : ℕ
  pub wmsg : Msg
  pub writes : List (List Write)
  pub sent : List ℕ

-- The texts of request.c, and any other that a function of the service answers with.
pub data Error : Type 0 where
  eduptag enofile eintr : Error
  other : List ℕ → Error
  edupfid enofunc eopen enoread enofid enotag enotdir eisdir : Error
  walk_open write_unopened wstat_type wstat_dev wstat_qid wstat_muid wstat_dmdir : Error

-- The functions of an Ixp9Srv.
pub data Call : Type 0 where
  srv_attach srv_clunk srv_flush srv_create srv_open srv_read srv_remove srv_stat : Call
  srv_walk srv_write srv_wstat : Call

-- What handlereq ends with: a call of ixp_respond, with an error or nil, or of a function.
pub data Next : Type 0 where
  respond : Option Error → Next
  call : Call → Next

-- A map after ixp_mapfree(map, nil).
abbrev pub emptied : IxpMap ℕ → IxpMap ℕ
emptied m = (ixp_mapfree m (λ (s : ℕ) v. s) 0).1

-- In all that follows, `none` is an access to a freed fid or a failed assertion.
unfoldable pub decref_p9conn : Conn → Option Conn
decref_p9conn c =
    if ltb 0 (c.ref - 1)
    then some (record c { ref = c.ref - 1 })
    else if c.has_conn
    then none
    else some (record c {
      ref = c.ref - 1;
      tagmap = emptied c.tagmap;
      fidmap = emptied c.fidmap;
      is_freed = true;
    })

abbrev pub no_qid : Qid
no_qid = record { type = 0; version = 0; path = 0 }

abbrev pub with_result {ℓ} : {A : Type ℓ} → A → Option Conn → Option (A × Conn)
with_result a none = none
with_result a (some c) = some (a, c)

abbrev pub free_fid : ℕ → Option Conn → Option Conn
free_fid p none = none
free_fid p (some c) = some (record c { fids = set c.fids p none })

-- The end of createfid, by the result of ixp_mapinsert.
unfoldable pub keep_fid : ℕ → Conn → Bool × IxpMap ℕ → Option (Option ℕ × Conn)
unfolding decref_p9conn
keep_fid p c (true, m) = some (some p, record c { fidmap = m })
keep_fid p c (false, m) =
    with_result none (decref_p9conn (record c { fidmap = m; fids = set c.fids p none }))

unfoldable pub createfid : ℕ → Conn → Option (Option ℕ × Conn)
createfid fid c =
    let p = length c.fids in
    let f : Fid = record { fid = fid; qid = no_qid; omode = 255; iounit = 0 } in
    keep_fid p (record c { fids = c.fids ++ some f ∷ []; ref = c.ref + 1 })
      (ixp_mapinsert c.fidmap fid (some p) false)

-- The release of the fid at a pointer. The service's `freefid` is taken not to touch the connection.
unfoldable pub drop_at : Conn → ℕ → Option Fid → Option (ℕ × Conn)
unfolding decref_p9conn
drop_at c p none = none
drop_at c p (some f) = with_result 1 (free_fid p (decref_p9conn c))

-- The end of destroyfid, by the result of ixp_maprm.
unfoldable pub drop_fid : Conn → Option ℕ × IxpMap ℕ → Option (ℕ × Conn)
unfolding drop_at
drop_fid c (none, m) = some (0, record c { fidmap = m })
drop_fid c (some p, m) = drop_at (record c { fidmap = m }) p (get_or c.fids p none)

unfoldable pub destroyfid : Conn → ℕ → Option (ℕ × Conn)
destroyfid c fid = drop_fid c (ixp_maprm c.fidmap fid)

-- `!strcmp(s, t)`
unfoldable pub same_string : List ℕ → List ℕ → Bool
same_string [] [] = true
same_string [] (d ∷ t) = d == 0
same_string (c ∷ s) [] = c == 0
same_string (c ∷ s) (d ∷ t) =
    let rest = same_string s t in if c == d then (if c == 0 then true else rest) else false

-- `s && s[0]`
abbrev pub nonempty : List ℕ → Bool
nonempty [] = false
nonempty (c ∷ s) = not (c == 0)

abbrev pub Result : Type 0
Result = Option (Next × Req × Conn)

-- `f->qid.type & QTDIR`, as a test
abbrev pub is_dir : Fid → Bool
is_dir f = not (bit_and f.qid.type 128 == 0)

-- `if(test) { ixp_respond(r, error); return; }`
abbrev pub refuse_if : Bool → Error → Req → Conn → Result → Result
refuse_if true error r c rest = some (respond (some error), r, c)
refuse_if false error r c rest = rest

-- The call of a function of the service, or the answer `otherwise` if it is nil.
abbrev pub call_or : (Call → Bool) → Option Error → Call → Req → Conn → Result
call_or has otherwise h r c = if has h then some (call h, r, c) else some (respond otherwise, r, c)

-- `r->fid = ixp_mapget(...)`, the refusal if it is nil, and what follows with the pointer.
abbrev pub with_fid : Option ℕ → Req → Conn → (ℕ → Req → Result) → Result
with_fid none r c rest = some (respond (some enofid), record r { fid = none }, c)
with_fid (some p) r c rest = rest p (record r { fid = some p })

-- The members of the fid at a pointer.
abbrev pub deref : Option Fid → (Fid → Result) → Result
deref none rest = none
deref (some f) rest = rest f
