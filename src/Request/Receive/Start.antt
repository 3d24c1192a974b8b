-- ===== src/Request/Receive/Start.antt =====
-- ixp_serve9conn_fd of lib/libixp/request.c.
use libixp.Prelude.{ℕ, ◌≡◌, refl, Bool, true, false, List, [], none, some, arith}
use libixp.Map.Refine.{view, IsMap, mapinit-IsMap, mapinit-view}
use libixp.Transport.{Write}
use libixp.Request.{Conn, decref_p9conn}
use libixp.Request.Fids.{IsConn}
use libixp.Request.Receive.{new_conn, ixp_serve9conn_fd}

-- A connection of which no tag or fid is in use; one that could not be listened on is freed.
abbrev pub Starts : Bool → Conn → Type 0
Starts true c =
    IsConn c
    × IsMap c.tagmap
    × ((j : ℕ) → view c.tagmap j ≡ none)
    × ((j : ℕ) → view c.fidmap j ≡ none)
    × (c.sent ≡ [])
    × (c.is_freed ≡ false)
Starts false c = c.is_freed ≡ true

-- ixp_serve9conn_fd sets up a connection that is well formed, on which no tag and no fid is in use and
-- nothing is written, and frees it if the server cannot listen on it.
pub serve9conn_fd-Starts :
    (listening : Bool) (writes : List (List Write))
    → (c : Conn) × (ixp_serve9conn_fd listening writes ≡ some c) × Starts listening c
unfolding ixp_serve9conn_fd decref_p9conn
serve9conn_fd-Starts true writes = (
  new_conn writes,
  refl,
  (
    record {
      map_ok = mapinit-IsMap 61 (omega arith);
      entries = λ k. rw (mapinit-view {V = ℕ} 61 k) tt;
      counted = omega arith;
    },
    mapinit-IsMap 61 (omega arith),
    mapinit-view {V = ℕ} 61,
    mapinit-view {V = ℕ} 61,
    refl,
    refl,
  ),
)
serve9conn_fd-Starts false writes = (_, refl, refl)
