-- ===== src/Client/Tests.antt =====
-- A client of services that hold one file.
use libixp.Prelude.{
  ◌+◌, ◌⊎◌, occurrences, ℕ, ◌≡◌, refl, true, List, [], ◌∷◌, ◌++◌, Option, none, some, length, take,
  drop, arith,
}
use libixp.Wire.Types.{Fcall}
use libixp.Request.{no_qid}
use libixp.Samples.{zeroed}
use libixp.Client.{CFid, Client, getfid, putfid}
use libixp.Client.Fids.{IsClient, numbers, getfid-IsClient, putfid-IsClient}
use libixp.Client.Files.{strip_end, walkdir}
use libixp.Client.Transfer.{ixp_pread, ixp_pwrite}
use libixp.Client.Transfer.Reads.{ServesFile, pread-take}
use libixp.Client.Transfer.Writes.{Appends, pwrite-Wrote}

abbrev file : List ℕ
file = 10 ∷ 20 ∷ 30 ∷ 40 ∷ 50 ∷ []

abbrev read_file : Fcall → Unit {0} → Option Fcall × Unit {0}
read_file q w =
    let bs = take q.count (drop q.offset file) in
    (some (record zeroed { type = 117; count = length bs; payload = bs }), w)

read_file-ServesFile : ServesFile read_file 2 file
read_file-ServesFile q w type fid = (
  record zeroed {
    type = 117;
    count = length (take q.count (drop q.offset file));
    payload = take q.count (drop q.offset file);
  },
  refl,
  record { type = refl; count = refl; payload = refl },
)

abbrev append_file : Fcall → List ℕ → Option Fcall × List ℕ
append_file q w = (some (record zeroed { type = 119; count = q.count }), w ++ q.payload)

append_file-Appends : Appends append_file 2 (λ w. w)
append_file-Appends q w type fid at = (
  record zeroed { type = 119; count = q.count },
  w ++ q.payload,
  refl,
  record { type = refl; count = refl },
  refl,
)

-- The fid 2, of which two bytes are moved at a time.
abbrev two : CFid
two = record { fid = 2; qid = no_qid; mode = 2; is_open = true; iounit = 2; offset = 0 }

abbrev with_two : {W : Type 0} → W → Client W
with_two w = record { msize = 26; lastfid = 2; freefid = []; world = w }

with_two-IsClient : IsClient (2 ∷ []) (with_two file)
with_two-IsClient = record {
  once = λ x. ground arith;
  low = λ x le. ground (arith, le);
  high = λ x gt. ground (arith, gt);
  root = omega arith;
}

-- The path "/" is read before its start.
root_path : walkdir append_file zeroed (b'/' ∷ []) (with_two file) ≡ none
unfolding walkdir strip_end
root_path = refl

pread-take_example :
    ixp_pread read_file 5 zeroed two 4 1 (with_two tt)
    ≡ some (some (take 4 (drop 1 file)), with_two tt)
pread-take_example =
    pread-take read_file zeroed two file read_file-ServesFile (omega arith) (omega arith) 5 4 1
      (with_two tt) (omega arith) (omega arith) (omega arith)

pwrite-Wrote_example :
    (c' : Client (List ℕ)) × (ixp_pwrite append_file 4 zeroed two (1 ∷ 2 ∷ 3 ∷ []) 5 (with_two file)
      ≡ some (some 3, c'))
    × (c'.world ≡ file ++ 1 ∷ 2 ∷ 3 ∷ [])
pwrite-Wrote_example =
    pwrite-Wrote append_file zeroed two (λ w. w) append_file-Appends (omega arith) (omega arith) 4
      (1 ∷ 2 ∷ 3 ∷ []) 5 (with_two file) (omega arith) (omega arith) (omega arith) refl

getfid-IsClient_example :
    IsClient ((getfid (with_two file)).0.fid ∷ 2 ∷ []) (getfid (with_two file)).1
    × (occurrences (getfid (with_two file)).0.fid (2 ∷ []) ≡ 0)
getfid-IsClient_example = getfid-IsClient (2 ∷ []) (with_two file) with_two-IsClient (omega arith)

putfid-IsClient_example :
    IsClient [] (putfid two (with_two file))
    × ((occurrences two.fid (numbers (putfid two (with_two file)).freefid) ≡ 1)
        ⊎ (two.fid ≡ (putfid two (with_two file)).lastfid + 1))
putfid-IsClient_example = putfid-IsClient [] two (with_two file) with_two-IsClient
