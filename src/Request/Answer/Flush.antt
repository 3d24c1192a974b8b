-- ===== src/Request/Answer/Flush.antt =====
-- The TFlush case of ixp_respond (lib/libixp/request.c).
use libixp.Prelude.{ℕ, ◌≡◌, none, some, get_or}
use libixp.Map.Refine.{view, IsMap}
use libixp.Request.{Req, Conn}

-- The request is a flush whose old tag is its own in the map of tags.
pub record FlushesItself (q : ℕ) (c : Conn) : Type 0 where
  pub req : Req
  pub tags : IsMap c.tagmap
  pub live : get_or c.reqs q none ≡ some req
  pub type : req.ifcall.type ≡ 108
  pub old : view c.tagmap req.ifcall.oldtag ≡ some (some q)
