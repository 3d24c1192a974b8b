-- ===== src/Wire/Message/Bytes.antt =====
-- The bytes of each 9P message, and the Fcalls that have them.
use libixp.Prelude.{
  ◌^◌, ◌≤◌, ◌<◌, ◌≡◌, length, All, ℕ, ◌^◌, ◌≤◌, ◌<◌, ◌≡◌, List, [], ◌∷◌, ◌++◌, take, drop, length,
  concat, All,
}
use libixp.Wire.Types.{
  Fcall, FType, t_version, r_version, t_auth, r_auth, t_attach, r_attach, r_error, t_flush, t_walk,
  r_walk, t_open, r_open, t_create, r_create, t_read, r_read, t_write, r_write, t_clunk, t_remove,
  t_stat, r_stat, t_wstat, ftype,
}
use libixp.Wire.Format.{
  IsString, IsQid, IsStat, le_bytes, format_string, format_strings, format_qid, format_qids,
  format_stat, IsString, IsQid, IsStat,
}

-- The body of a message; `size` are the two bytes before the entry of a TWStat.
abbrev pub body_bytes : ℕ → FType → Fcall → List ℕ
body_bytes size t_version f = concat (le_bytes 4 f.msize ∷ format_string f.version ∷ [])
body_bytes size r_version f = concat (le_bytes 4 f.msize ∷ format_string f.version ∷ [])
body_bytes size t_auth f =
    concat (le_bytes 4 f.afid ∷ format_string f.uname ∷ format_string f.aname ∷ [])
body_bytes size r_auth f = concat (format_qid f.aqid ∷ [])
body_bytes size r_attach f = concat (format_qid f.qid ∷ [])
body_bytes size t_attach f =
    concat
      (le_bytes 4 f.fid ∷ le_bytes 4 f.afid ∷ format_string f.uname ∷ format_string f.aname ∷ [])
body_bytes size r_error f = concat (format_string f.ename ∷ [])
body_bytes size t_flush f = concat (le_bytes 2 f.oldtag ∷ [])
body_bytes size t_walk f = concat (
    le_bytes 4 f.fid
    ∷ le_bytes 4 f.newfid
    ∷ (le_bytes 2 f.nwname ++ format_strings f.nwname f.wname)
    ∷ [])
body_bytes size r_walk f = concat ((le_bytes 2 f.nwqid ++ format_qids f.nwqid f.wqid) ∷ [])
body_bytes size t_open f = concat (le_bytes 4 f.fid ∷ le_bytes 1 f.mode ∷ [])
body_bytes size r_open f = concat (format_qid f.qid ∷ le_bytes 4 f.iounit ∷ [])
body_bytes size r_create f = concat (format_qid f.qid ∷ le_bytes 4 f.iounit ∷ [])
body_bytes size t_create f =
    concat (le_bytes 4 f.fid ∷ format_string f.name ∷ le_bytes 4 f.perm ∷ le_bytes 1 f.mode ∷ [])
body_bytes size t_read f = concat (le_bytes 4 f.fid ∷ le_bytes 8 f.offset ∷ le_bytes 4 f.count ∷ [])
body_bytes size r_read f = concat (le_bytes 4 f.count ∷ f.payload ∷ [])
body_bytes size t_write f =
    concat (le_bytes 4 f.fid ∷ le_bytes 8 f.offset ∷ le_bytes 4 f.count ∷ f.payload ∷ [])
body_bytes size r_write f = concat (le_bytes 4 f.count ∷ [])
body_bytes size t_clunk f = concat (le_bytes 4 f.fid ∷ [])
body_bytes size t_remove f = concat (le_bytes 4 f.fid ∷ [])
body_bytes size t_stat f = concat (le_bytes 4 f.fid ∷ [])
body_bytes size r_stat f = concat (le_bytes 2 f.nstat ∷ f.stat ∷ [])
body_bytes size t_wstat f = concat (le_bytes 4 f.fid ∷ le_bytes 2 size ∷ format_stat f.twstat ∷ [])
body_bytes size _ f = []

-- Everything behind the size of the message.
abbrev pub fcall_bytes : ℕ → Fcall → List ℕ
fcall_bytes size f = le_bytes 1 f.type ++ (le_bytes 2 f.tag ++ body_bytes size (ftype f.type) f)

-- The members of `f` that its type selects, over those of `g`.
abbrev pub overlay_body : FType → Fcall → Fcall → Fcall
overlay_body t_version f g = record g { msize = f.msize; version = f.version }
overlay_body r_version f g = record g { msize = f.msize; version = f.version }
overlay_body t_auth f g = record g { afid = f.afid; uname = f.uname; aname = f.aname }
overlay_body r_auth f g = record g { aqid = f.aqid }
overlay_body r_attach f g = record g { qid = f.qid }
overlay_body t_attach f g = record g {
  fid = f.fid;
  afid = f.afid;
  uname = f.uname;
  aname = f.aname;
}
overlay_body r_error f g = record g { ename = f.ename }
overlay_body t_flush f g = record g { oldtag = f.oldtag }
overlay_body t_walk f g = record g {
  fid = f.fid;
  newfid = f.newfid;
  nwname = f.nwname;
  wname = take f.nwname f.wname ++ drop f.nwname g.wname;
}
overlay_body r_walk f g = record g {
  nwqid = f.nwqid;
  wqid = take f.nwqid f.wqid ++ drop f.nwqid g.wqid;
}
overlay_body t_open f g = record g { fid = f.fid; mode = f.mode }
overlay_body r_open f g = record g { qid = f.qid; iounit = f.iounit }
overlay_body r_create f g = record g { qid = f.qid; iounit = f.iounit }
overlay_body t_create f g = record g { fid = f.fid; name = f.name; perm = f.perm; mode = f.mode }
overlay_body t_read f g = record g { fid = f.fid; offset = f.offset; count = f.count }
overlay_body r_read f g = record g { count = f.count; payload = f.payload }
overlay_body t_write f g = record g {
  fid = f.fid;
  offset = f.offset;
  count = f.count;
  payload = f.payload;
}
overlay_body r_write f g = record g { count = f.count }
overlay_body t_clunk f g = record g { fid = f.fid }
overlay_body t_remove f g = record g { fid = f.fid }
overlay_body t_stat f g = record g { fid = f.fid }
overlay_body r_stat f g = record g { nstat = f.nstat; stat = f.stat }
overlay_body t_wstat f g = record g { fid = f.fid; twstat = f.twstat }
overlay_body _ f g = g

abbrev pub overlay : Fcall → Fcall → Fcall
overlay f g = overlay_body (ftype f.type) f (record g { type = f.type; tag = f.tag })

-- The members that a type selects can be carried: numbers of their width, strings with no nul and
-- a length of 16 bits, counts that are the lengths of their data, arrays of 16 elements.
abbrev pub IsBody : FType → Fcall → Type 0
IsBody t_version f = (f.msize < 2 ^ 32) × IsString f.version
IsBody r_version f = (f.msize < 2 ^ 32) × IsString f.version
IsBody t_auth f = (f.afid < 2 ^ 32) × IsString f.uname × IsString f.aname
IsBody r_auth f = IsQid f.aqid
IsBody r_attach f = IsQid f.qid
IsBody t_attach f = (f.fid < 2 ^ 32) × (f.afid < 2 ^ 32) × IsString f.uname × IsString f.aname
IsBody r_error f = IsString f.ename
IsBody t_flush f = f.oldtag < 2 ^ 16
IsBody t_walk f =
    (f.fid < 2 ^ 32)
    × (f.newfid < 2 ^ 32)
    × (f.nwname ≤ 16)
    × (length f.wname ≡ 16)
    × All IsString f.wname
IsBody r_walk f = (f.nwqid ≤ 16) × (length f.wqid ≡ 16) × All IsQid f.wqid
IsBody t_open f = (f.fid < 2 ^ 32) × (f.mode < 2 ^ 8)
IsBody r_open f = IsQid f.qid × (f.iounit < 2 ^ 32)
IsBody r_create f = IsQid f.qid × (f.iounit < 2 ^ 32)
IsBody t_create f = (f.fid < 2 ^ 32) × IsString f.name × (f.perm < 2 ^ 32) × (f.mode < 2 ^ 8)
IsBody t_read f = (f.fid < 2 ^ 32) × (f.offset < 2 ^ 64) × (f.count < 2 ^ 32)
IsBody r_read f = (f.count < 2 ^ 32) × (length f.payload ≡ f.count)
IsBody t_write f =
    (f.fid < 2 ^ 32) × (f.offset < 2 ^ 64) × (f.count < 2 ^ 32) × (length f.payload ≡ f.count)
IsBody r_write f = f.count < 2 ^ 32
IsBody t_clunk f = f.fid < 2 ^ 32
IsBody t_remove f = f.fid < 2 ^ 32
IsBody t_stat f = f.fid < 2 ^ 32
IsBody r_stat f = (f.nstat < 2 ^ 16) × (length f.stat ≡ f.nstat)
IsBody t_wstat f = (f.fid < 2 ^ 32) × IsStat f.twstat
IsBody _ f = Unit

pub record IsFcall (f : Fcall) : Type 0 where
  pub type : f.type < 2 ^ 8
  pub tag : f.tag < 2 ^ 16
  pub body : IsBody (ftype f.type) f

-- Both arrays of an Fcall have IXP_MAX_WELEM elements.
pub record HasArrays (f : Fcall) : Type 0 where
  pub names : length f.wname ≡ 16
  pub qids : length f.wqid ≡ 16
