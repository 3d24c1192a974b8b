-- ===== src/Request/Examples.antt =====
-- Connections for the tests of lib/libixp/request.c.
use libixp.Prelude.{
  ℕ, refl, true, false, [], ◌∷◌, some, arith, ◌==◌, ==_iff, Bool-cases, inl, inr, replicate,
}
use libixp.Map.{ixp_mapinit, ixp_mapinsert}
use libixp.Map.Refine.{IsMap, mapinit-IsMap, mapinit-view, mapinsert_lem}
use libixp.Wire.Msg.{msg_pack}
use libixp.Transport.{wrote}
use libixp.Samples.{zeroed, zero_req}
use libixp.Request.{Conn, Req}
use libixp.Request.Fids.{IsConn, new_fid}

-- What ixp_serve9conn_fd sets up.
abbrev pub empty_conn : Conn
empty_conn = record {
  tagmap = ixp_mapinit 61;
  fidmap = ixp_mapinit 61;
  fids = [];
  reqs = [];
  ref = 1;
  has_conn = true;
  is_freed = false;
  rsize = 1024;
  wmsg = record { buf = replicate 1024 0; pos = 0; end = 0; size = 1024; mode = msg_pack };
  writes = [];
  sent = [];
}

pub empty_conn-IsConn : IsConn empty_conn
empty_conn-IsConn = record {
  map_ok = mapinit-IsMap 61 (omega arith);
  entries = λ k. rw (mapinit-view {V = ℕ} 61 k) tt;
  counted = omega arith;
}

-- The fid 7 is there, and not open.
abbrev pub one_fid : Conn
one_fid = record empty_conn {
  fidmap = (ixp_mapinsert (ixp_mapinit 61) 7 (some 0) false).1;
  fids = some (new_fid 7) ∷ [];
  ref = 2;
}

pub one_fid-IsConn : IsConn one_fid
one_fid-IsConn =
    let lem =
      mapinsert_lem (ixp_mapinit {V = ℕ} 61) (mapinit-IsMap 61 (omega arith)) 7 (some 0) false in
    record {
      map_ok = lem.0;
      entries = λ k.
          rw (lem.2 k, mapinit-view {V = ℕ} 61 7, mapinit-view {V = ℕ} 61 k)
            (elim (Bool-cases (7 == k)) [
              | inl t ↦ rw t (new_fid 7, refl, (==_iff 7 k).0 t)
              | inr t ↦ rw t tt
            ]);
      counted = omega arith;
    }

-- A TClunk of 7 with the tag 5, which waits for its answer.
abbrev pub clunk_req : Req
clunk_req = record zero_req {
  fid = some 0;
  ifcall = record zeroed { type = 120; tag = 5; fid = 7 };
}

abbrev pub one_req : Conn
one_req = record one_fid {
  tagmap = (ixp_mapinsert (ixp_mapinit 61) 5 (some 0) false).1;
  reqs = some clunk_req ∷ [];
  ref = 3;
  writes = replicate 11 (wrote 2) ∷ [];
}

pub one_req-IsConn : IsConn one_req
one_req-IsConn = record {
  map_ok = one_fid-IsConn.map_ok;
  entries = one_fid-IsConn.entries;
  counted = omega arith;
}

pub one_req-tagmap-IsMap : IsMap one_req.tagmap
one_req-tagmap-IsMap =
    (mapinsert_lem (ixp_mapinit {V = ℕ} 61) (mapinit-IsMap 61 (omega arith)) 5 (some 0) false).0

-- A TFlush of its own tag.
abbrev pub flush_req : Req
flush_req = record zero_req { ifcall = record zeroed { type = 108; tag = 5; oldtag = 5 } }

abbrev pub one_flush : Conn
one_flush = record one_req { reqs = some flush_req ∷ [] }

-- A TWrite.
abbrev pub write_req : Req
write_req = record zero_req {
  fid = some 0;
  ifcall = record zeroed { type = 118; tag = 5; fid = 7 };
}

abbrev pub one_write : Conn
one_write = record one_req { reqs = some write_req ∷ [] }
