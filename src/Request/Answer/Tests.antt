-- ===== src/Request/Answer/Tests.antt =====
-- Answers on the connections of Examples.
use libixp.Prelude.{◌≡◌, refl, arith, none, some}
use libixp.Map.{ixp_mapinsert, ixp_mapinit, map_getp, at_link, insert_link, exists, insert, store}
use libixp.Map.Chain.{find}
use libixp.Map.Refine.{view}
use libixp.Wire.Types.{ftype, t_clunk}
use libixp.Wire.Format.{le_bytes}
use libixp.Wire.RoundTrip.{message_bytes}
use libixp.Request.{Conn}
use libixp.Request.Fids.{new_fid}
use libixp.Request.Respond.{settle}
use libixp.Request.Settled.{Dooms, settle-Dooms}
use libixp.Request.Answer.{answered, ixp_respond}
use libixp.Request.Answer.Deliver.{CanSend, Delivered, respond-Delivered}
use libixp.Request.Answer.Clunk.{Clunked, respond-Clunked}
use libixp.Request.Examples.{
  clunk_req, one_req, one_req-IsConn, one_req-tagmap-IsMap, write_req, one_write,
}

one_req-CanSend : CanSend 0 (answered clunk_req none).ofcall one_req
unfolding answered ftype le_bytes
one_req-CanSend = record {
  connected = refl;
  small = omega arith;
  buffer = record { width = refl; fits = omega arith };
  packable = record { type = omega arith; tag = omega arith; body = tt };
  room = omega arith;
  no_failure = tt;
  enough = omega arith;
}

one_write-CanSend : CanSend 0 (answered write_req none).ofcall one_write
unfolding answered ftype le_bytes
one_write-CanSend = record {
  connected = refl;
  small = omega arith;
  buffer = record { width = refl; fits = omega arith };
  packable = record { type = omega arith; tag = omega arith; body = omega arith };
  room = omega arith;
  no_failure = tt;
  enough = omega arith;
}

fid_there : view one_req.fidmap 7 ≡ some (some 0)
unfolding view find ixp_mapinit ixp_mapinsert map_getp at_link insert_link exists insert store
fid_there = refl

write_settles : settle 0 (ftype 118) write_req none one_write ≡ some (write_req, none, one_write)
unfolding settle ftype
write_settles = refl

settle-Dooms_example : Dooms 7 clunk_req one_req (settle 0 t_clunk clunk_req none one_req)
settle-Dooms_example =
    settle-Dooms 0 clunk_req one_req one_req-IsConn (omega arith) 0 (new_fid 7) refl t_clunk none
      refl

respond-Delivered_example :
    (c' : Conn) × (ixp_respond 0 (λ c. none) 0 1 0 none one_write ≡ some c')
    × Delivered 5 0 (message_bytes 0 (answered write_req none).ofcall) one_write c'
respond-Delivered_example =
    respond-Delivered 0 (λ c. none) 0 0 0 none one_write write_req write_req none one_write refl
      refl write_settles one_req-tagmap-IsMap refl (omega arith) one_write-CanSend

respond-Clunked_example :
    (c' : Conn) × (ixp_respond 0 (λ c. none) 0 1 0 none one_req ≡ some c')
    × Clunked 5 7 0 0 (answered clunk_req none).ofcall 0 one_req c'
respond-Clunked_example =
    respond-Clunked 0 (λ c. none) 0 0 0 0 none one_req clunk_req (new_fid 7) one_req-IsConn
      one_req-tagmap-IsMap refl refl refl refl fid_there (omega arith) one_req-CanSend
