-- ===== src/Request/Receive/Tests.antt =====
-- Runs of a connection.
use libixp.Prelude.{◌≡◌, ◌≢◌, refl, arith, false, [], ◌∷◌, none, some, replicate}
use libixp.Map.{ixp_mapinsert, ixp_mapinit, map_getp, at_link, insert_link, exists, insert, store}
use libixp.Map.Chain.{find}
use libixp.Map.Refine.{view}
use libixp.Wire.Types.{Fcall, ftype, t_version}
use libixp.Wire.Format.{le_bytes}
use libixp.Wire.Msg.{
  Msg, msg_unpack, ◌>>=◌, when_available, available, with_mode, read_bytes, pure, skip,
}
use libixp.Wire.Convert.{ixp_pu8, ixp_puint, transfer, ixp_pu16, ixp_pu32, ixp_pu64, load}
use libixp.Wire.Message.{Coded, ixp_msg2fcall, ixp_pfcall, pfcall_arm, pfid}
use libixp.Wire.RoundTrip.{message_bytes}
use libixp.Transport.{wrote}
use libixp.Samples.{zeroed}
use libixp.Request.{Conn}
use libixp.Request.Answer.Deliver.{CanSend}
use libixp.Request.Receive.{Service, handlefcall}
use libixp.Request.Receive.Duplicate.{refusal, with_req, Refused, handlefcall-Refused}
use libixp.Request.Examples.{one_req, one_req-tagmap-IsMap}

-- A service without functions.
abbrev bare : Service
bare = record { has = λ h. false; serve = λ h q c. none; junk = 0; size = 0; depth = 1 }

-- A TRead with the tag of a request that waits.
abbrev again : Fcall
again = record zeroed { type = 116; tag = 5; fid = 7 }

abbrev waiting : Conn
waiting = record one_req { writes = replicate 19 (wrote 2) ∷ [] }

waiting-CanSend : CanSend 0 (refusal again) (with_req again waiting)
unfolding ftype le_bytes
waiting-CanSend = record {
  connected = refl;
  small = omega arith;
  buffer = record { width = refl; fits = omega arith };
  packable = record {
    type = omega arith;
    tag = omega arith;
    body = record { chars = ground arith; short = omega arith };
  };
  room = omega arith;
  no_failure = tt;
  enough = omega arith;
}

in_use : view waiting.tagmap 5 ≡ some (some 0)
unfolding view find ixp_mapinit ixp_mapinsert map_getp at_link insert_link exists insert store
in_use = refl

read_type : ftype 116 ≢ t_version
unfolding ftype
read_type e = absurd (cc e)

-- The message, and what it decodes to.
abbrev again_msg : Msg
again_msg = record {
  buf = 23 ∷ 0 ∷ 0 ∷ 0 ∷ 116 ∷ 5 ∷ 0 ∷ 7 ∷ 0 ∷ 0 ∷ 0 ∷ replicate 12 0;
  pos = 0;
  end = 23;
  size = 1024;
  mode = msg_unpack;
}

abbrev again_coded : Coded
again_coded = record { result = 23; msg = record again_msg { pos = 23 }; fcall = again }

decodes : ixp_msg2fcall 0 again_msg zeroed ≡ some again_coded
unfolding ixp_msg2fcall ixp_pfcall ◌>>=◌ ixp_pu8 ixp_puint when_available available with_mode
    transfer read_bytes pure skip ixp_pu16 ixp_pu32 ixp_pu64 pfcall_arm ftype load pfid
decodes = refl

handlefcall-Refused_example :
    (c' : Conn) × (handlefcall bare (some again_msg) waiting ≡ some c')
    × Refused again (message_bytes 0 (refusal again)) waiting c'
handlefcall-Refused_example =
    handlefcall-Refused bare again_msg again_coded waiting (some 0) 0 decodes (λ e. absurd (cc e))
      one_req-tagmap-IsMap in_use refl refl read_type (omega arith) waiting-CanSend
