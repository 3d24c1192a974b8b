-- ===== src/Buffers/Tests.antt =====
-- Concrete files: runs, and the theorems at inputs that meet their hypotheses.
use libixp.Prelude.{◌≡◌, refl, [], ◌∷◌, some, arith, take}
use libixp.Request.{Req}
use libixp.Samples.{zeroed, zero_req}
use libixp.Buffers.{Buffer, ixp_srv_readbuf, ixp_srv_writebuf, answer_count, limit_data, store_data}
use libixp.Buffers.Contents.{Written, with_data}
use libixp.Buffers.Stores.{IsBuffer, writebuf-Written, readbuf-writebuf}

abbrev abc : Buffer
abc = record { buf = 97 ∷ 98 ∷ 99 ∷ 0 ∷ []; len = 3 }

abbrev write_xy : Req
write_xy = record zero_req {
  ifcall = record zeroed { offset = 1; count = 2; payload = 120 ∷ 121 ∷ [] };
}

abbrev read_two : Req
read_two = record zero_req { ifcall = record zeroed { offset = 1; count = 2 } }

-- Without a limit the buffer grows, and ends after the write.
writes :
    ixp_srv_writebuf 7 0 write_xy abc 0
    ≡ some (answer_count write_xy 2, record { buf = 97 ∷ 120 ∷ 121 ∷ 0 ∷ []; len = 3 })
unfolding ixp_srv_writebuf limit_data store_data
writes = refl

-- An append only file.
appends :
    ixp_srv_writebuf 7 0x40000000 write_xy abc 0
    ≡ some (answer_count write_xy 2, record { buf = 97 ∷ 98 ∷ 99 ∷ 120 ∷ 121 ∷ 0 ∷ []; len = 5 })
unfolding ixp_srv_writebuf limit_data store_data
appends = refl

abc-IsBuffer : IsBuffer abc 0
abc-IsBuffer = omega arith

writebuf-Written_example : Written write_xy abc 1 2 (ixp_srv_writebuf 7 0 write_xy abc 0)
writebuf-Written_example =
    writebuf-Written 7 0 write_xy abc 0 abc-IsBuffer (omega arith) (omega arith) (omega arith)
      (omega arith) (λ _. omega arith)

readbuf-writebuf_example :
    (req' : Req) × (after : Buffer) × (ixp_srv_writebuf 7 0 write_xy abc 0 ≡ some (req', after))
    × (ixp_srv_readbuf read_two after.buf after.len
        ≡ some (with_data read_two (take 2 (120 ∷ 121 ∷ []))))
readbuf-writebuf_example =
    readbuf-writebuf 7 0 write_xy read_two abc 0 abc-IsBuffer (omega arith) (omega arith)
      (omega arith) (omega arith) (λ _. omega arith) (omega arith) refl (omega arith)
