-- ===== src/Request/Tests.antt =====
-- A connection with one fid: runs, and the theorems at inputs that meet their hypotheses.
use libixp.Prelude.{◌≡◌, refl, Bool, true, [], ◌∷◌, none, some}
use libixp.Map.{
  ixp_mapinit, ixp_mapinsert, ixp_mapget, map_getp, at_link, exists, insert, store, insert_link,
  get_link,
}
use libixp.Wire.Types.{ftype}
use libixp.Samples.{zeroed}
use libixp.Request.{Conn, Req, Call, srv_read, respond, call, enoread}
use libixp.Request.Handle.{handlereq, dispatch, on_fid, on_pointer, handle_read}
use libixp.Request.Fids.{new_fid}
use libixp.Request.Examples.{one_fid, one_fid-IsConn}
use libixp.Request.Allowed.{IsSafe}
use libixp.Request.Safe.{handlereq-IsSafe}

-- A TWalk from 7 to the new fid 8 without names, and a TRead of 7.
abbrev walk_req : Req
walk_req = record {
  fid = none;
  newfid = none;
  oldreq = none;
  ifcall = record zeroed { type = 110; fid = 7; newfid = 8 };
  ofcall = zeroed;
}

abbrev read_req : Req
read_req = record walk_req { ifcall = record zeroed { type = 116; fid = 7 } }

abbrev all_functions : Call → Bool
all_functions h = true

read_refused :
    handlereq all_functions read_req one_fid
    ≡ some (respond (some enoread), record read_req { fid = some 0 }, one_fid)
unfolding handlereq dispatch on_fid on_pointer handle_read ixp_mapget ixp_mapinit ixp_mapinsert
    map_getp at_link insert_link get_link exists insert store ftype
read_refused = refl

-- The fid 7 is open with the mode OWRITE|OTRUNC, which is not exactly OWRITE: the read is passed on.
abbrev truncated : Conn
truncated = record one_fid { fids = some (record (new_fid 7) { omode = 17 }) ∷ [] }

read_allowed :
    handlereq all_functions read_req truncated
    ≡ some (call srv_read, record read_req { fid = some 0 }, truncated)
unfolding handlereq dispatch on_fid on_pointer handle_read ixp_mapget ixp_mapinit ixp_mapinsert
    map_getp at_link insert_link get_link exists insert store ftype
read_allowed = refl

handlereq-IsSafe_example : IsSafe all_functions (handlereq all_functions walk_req one_fid)
handlereq-IsSafe_example = handlereq-IsSafe all_functions walk_req one_fid one_fid-IsConn
