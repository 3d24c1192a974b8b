-- ===== src/Samples.antt =====
-- Zeroed structures: what emallocz and `= {0}` give.
use libixp.Prelude.{[], none, replicate}
use libixp.Wire.Types.{Stat, Fcall}
use libixp.Request.{Req, no_qid}

abbrev pub zero_stat : Stat
zero_stat = record {
  type = 0;
  dev = 0;
  qid = no_qid;
  mode = 0;
  atime = 0;
  mtime = 0;
  length = 0;
  name = [];
  uid = [];
  gid = [];
  muid = [];
}

abbrev pub zeroed : Fcall
zeroed = record {
  type = 0;
  tag = 0;
  fid = 0;
  msize = 0;
  version = [];
  oldtag = 0;
  ename = [];
  qid = no_qid;
  iounit = 0;
  aqid = no_qid;
  afid = 0;
  uname = [];
  aname = [];
  perm = 0;
  name = [];
  mode = 0;
  newfid = 0;
  nwname = 0;
  wname = replicate 16 [];
  nwqid = 0;
  wqid = replicate 16 no_qid;
  offset = 0;
  count = 0;
  payload = [];
  nstat = 0;
  stat = [];
  twstat = zero_stat;
}

abbrev pub zero_req : Req
zero_req = record { fid = none; newfid = none; oldreq = none; ifcall = zeroed; ofcall = zeroed }
