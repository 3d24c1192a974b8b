-- ===== src/Transport/Incoming/Tests.antt =====
-- A message of six bytes that comes in parts, with another one behind it.
use libixp.Prelude.{◌≡◌, refl, List, [], ◌∷◌, ◌++◌, some, arith, replicate}
use libixp.Wire.Msg.{Msg, msg_pack}
use libixp.Wire.Format.{le_bytes}
use libixp.Transport.{Write, wrote, interrupted}
use libixp.Transport.Incoming.{Received, ixp_recvmsg}
use libixp.Transport.Incoming.Whole.{Whole, recvmsg-Whole}

abbrev empty_buffer : Msg
empty_buffer = record { buf = replicate 10 0; pos = 0; end = 0; size = 10; mode = msg_pack }

abbrev parts : List Write
parts = wrote 2 ∷ interrupted ∷ wrote 7 ∷ wrote 0 ∷ wrote 0 ∷ wrote 0 ∷ wrote 0 ∷ []

recvmsg-Whole_example :
    (r : Received) × (ixp_recvmsg 0 parts empty_buffer ((le_bytes 4 6 ++ 8 ∷ 9 ∷ []) ++ 7 ∷ [])
      ≡ some r)
    × Whole (le_bytes 4 6 ++ 8 ∷ 9 ∷ []) (7 ∷ []) r
recvmsg-Whole_example =
    recvmsg-Whole 0 parts empty_buffer (8 ∷ 9 ∷ []) (7 ∷ [])
      (record { width = refl; fits = omega arith }) tt (omega arith) (omega arith)
