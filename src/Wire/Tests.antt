-- ===== src/Wire/Tests.antt =====
-- Concrete messages: the codec's runs, and its theorems at inputs that meet their hypotheses.
use libixp.Prelude.{◌≤◌, ◌<◌, ◌≡◌, refl, ◌⊎◌, [], ◌∷◌, some, arith, length, replicate}
use libixp.Wire.Types.{Qid, Stat, Fcall, ftype}
use libixp.Wire.Msg.{Msg, msg_pack}
use libixp.Wire.Message.{Coded, ixp_fcall2msg, ixp_msg2fcall}
use libixp.Wire.Message.Bytes.{overlay, IsFcall, HasArrays}
use libixp.Wire.Format.{le_bytes, IsStat}
use libixp.Wire.RoundTrip.{
  IsBuffer, message_bytes, Holds, msg2fcall-fcall2msg, fcall2msg-Holds, fcall2msg_too_long,
}
use libixp.Wire.Safe.Fcall.{msg2fcall_safe}

abbrev no_qid : Qid
no_qid = record { type = 0; version = 0; path = 0 }

abbrev file_stat : Stat
file_stat = record {
  type = 1;
  dev = 2;
  qid = no_qid;
  mode = 420;
  atime = 7;
  mtime = 8;
  length = 5;
  name = b'a' ∷ b'b' ∷ [];
  uid = b'u' ∷ [];
  gid = b'g' ∷ [];
  muid = [];
}

abbrev zeroed : Fcall
zeroed = record {
  type = 0;
  tag = 0;
  fid = 0;
  msize = 0;
  version = [];
  oldtag = 0;
  ename = [];
  qid = no_qid;
  iounit = 0;
  aqid = no_qid;
  afid = 0;
  uname = [];
  aname = [];
  perm = 0;
  name = [];
  mode = 0;
  newfid = 0;
  nwname = 0;
  wname = replicate 16 [];
  nwqid = 0;
  wqid = replicate 16 no_qid;
  offset = 0;
  count = 0;
  payload = [];
  nstat = 0;
  stat = [];
  twstat = file_stat;
}

-- TWalk of "ab" and "c" from fid 1 to fid 2.
abbrev walk_call : Fcall
walk_call = record zeroed {
  type = 110;
  tag = 5;
  fid = 1;
  newfid = 2;
  nwname = 2;
  wname = (b'a' ∷ b'b' ∷ []) ∷ (b'c' ∷ []) ∷ replicate 14 [];
}

abbrev buffer : Msg
buffer = record { buf = replicate 40 0; pos = 9; end = 3; size = 40; mode = msg_pack }

walk_call-IsFcall : IsFcall walk_call
unfolding ftype
walk_call-IsFcall = omega arith

walk_call_fits : length (message_bytes 0 walk_call) ≤ 40
unfolding ftype le_bytes
walk_call_fits = omega arith

buffer-IsBuffer : IsBuffer buffer
buffer-IsBuffer = record { width = refl; fits = omega arith }

zeroed-HasArrays : HasArrays zeroed
zeroed-HasArrays = record { names = refl; qids = refl }

msg2fcall-fcall2msg_example :
    (c d : Coded) × (ixp_fcall2msg 0 buffer walk_call ≡ some c)
    × (ixp_msg2fcall 0 c.msg zeroed ≡ some d)
    × (c.result ≡ length (message_bytes 0 walk_call))
    × (d.result ≡ c.result)
    × (d.fcall ≡ overlay walk_call zeroed)
msg2fcall-fcall2msg_example =
    msg2fcall-fcall2msg 0 0 buffer walk_call zeroed (omega arith) buffer-IsBuffer walk_call-IsFcall
      zeroed-HasArrays walk_call_fits

fcall2msg-Holds_example :
    (c : Coded) × (ixp_fcall2msg 0 buffer walk_call ≡ some c)
    × Holds (message_bytes 0 walk_call) c
    × (c.fcall ≡ walk_call)
fcall2msg-Holds_example =
    fcall2msg-Holds 0 buffer walk_call (omega arith) buffer-IsBuffer walk_call-IsFcall
      walk_call_fits

abbrev small_buffer : Msg
small_buffer = record { buf = replicate 20 0; pos = 0; end = 0; size = 20; mode = msg_pack }

walk_call_long : 20 < length (message_bytes 0 walk_call)
unfolding ftype le_bytes
walk_call_long = omega arith

fcall2msg_too_long_example :
    (c : Coded) × (ixp_fcall2msg 0 small_buffer walk_call ≡ some c)
    × (c.result ≡ 0)
    × (c.fcall ≡ walk_call)
fcall2msg_too_long_example =
    fcall2msg_too_long 0 small_buffer walk_call (omega arith)
      (record { width = refl; fits = omega arith }) walk_call-IsFcall walk_call_long

-- A TWalk that announces two names and holds one cut short.
abbrev cut_walk : Msg
cut_walk = record {
  buf = 0 ∷ 0 ∷ 0 ∷ 0 ∷ 110 ∷ 5 ∷ 0 ∷ 1 ∷ 0 ∷ 0 ∷ 0 ∷ 2 ∷ 0 ∷ 0 ∷ 0 ∷ 2 ∷ 0 ∷ 9 ∷ 0 ∷ b'a' ∷ [];
  pos = 0;
  end = 20;
  size = 20;
  mode = msg_pack;
}

msg2fcall_safe_example :
    (d : Coded) × (ixp_msg2fcall 0 cut_walk zeroed ≡ some d)
    × (d.msg.buf ≡ cut_walk.buf)
    × ((d.result ≡ 0) ⊎ ((d.result ≡ d.msg.pos) × (d.msg.pos ≤ 20)))
msg2fcall_safe_example =
    msg2fcall_safe 0 cut_walk zeroed refl (omega arith) (omega arith) zeroed-HasArrays

file_stat-IsStat : IsStat file_stat
unfolding le_bytes
file_stat-IsStat = omega arith
