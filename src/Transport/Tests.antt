-- ===== src/Transport/Tests.antt =====
-- A message of three bytes that is written in two parts, with an interruption between them.
use libixp.Prelude.{◌≡◌, refl, List, [], ◌∷◌, some, arith}
use libixp.Wire.Msg.{Msg, msg_pack}
use libixp.Transport.{Write, wrote, interrupted, failed, send_loop, ixp_sendmsg}
use libixp.Transport.Send.{IsSent, sendmsg-IsSent}

abbrev three_bytes : Msg
three_bytes = record { buf = 5 ∷ 6 ∷ 7 ∷ 0 ∷ []; pos = 0; end = 3; size = 4; mode = msg_pack }

abbrev two_parts : List Write
two_parts = wrote 1 ∷ interrupted ∷ wrote 4 ∷ failed ∷ []

sends_all :
    ixp_sendmsg two_parts three_bytes
    ≡ some (record { result = 3; msg = record three_bytes { pos = 3 }; bytes = 5 ∷ 6 ∷ 7 ∷ [] })
unfolding ixp_sendmsg send_loop
sends_all = refl

sendmsg-IsSent_example : IsSent two_parts three_bytes.buf 3 (ixp_sendmsg two_parts three_bytes)
sendmsg-IsSent_example = sendmsg-IsSent two_parts three_bytes (omega arith)
