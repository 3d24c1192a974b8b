-- ===== src/Rpc/Tests.antt =====
-- Two calls of a client, the second of which makes the table grow.
use libixp.Prelude.{ℕ, ◌+◌, ◌≡◌, ◌≢◌, refl, get_or, inr, true, false, [], ◌∷◌, none, some, arith}
use libixp.Samples.{zeroed}
use libixp.Rpc.{Rpc, Mux, gettag, puttag, dispatch_fcall}
use libixp.Rpc.Tags.{IsMux, Tagged, gettag-Tagged, puttag-Freed}
use libixp.Rpc.Answers.{Handed, dispatch-Handed}

abbrev waiting : Rpc
waiting = record { tag = 0; queued = true; p = none; async = false }

abbrev one_call : Mux
one_call = record {
  wait = some 0 ∷ [];
  nwait = 1;
  freetag = 0;
  mintag = 0;
  maxtag = 255;
  sleep = 0 ∷ [];
  rpcs = waiting ∷ record waiting { queued = false } ∷ [];
  muxer = none;
}

one_call-IsMux : IsMux one_call
one_call-IsMux = record { counted = refl; near = λ some_tag. omega arith }

gettag-Tagged_example :
    (i : ℕ) × (m' : Mux) × (gettag true 1 one_call ≡ some (some (i + 0), m'))
    × Tagged 1 i one_call m'
gettag-Tagged_example = gettag-Tagged 1 one_call one_call-IsMux (omega arith) (inr (omega arith))

dispatch-Handed_example : Handed zeroed one_call 0 0 (dispatch_fcall zeroed one_call)
dispatch-Handed_example =
    dispatch-Handed zeroed one_call 0 0 refl (omega arith) refl (omega arith) refl refl

puttag-Freed_example :
    (m' : Mux) × (puttag 0 one_call ≡ some m')
    × (get_or m'.wait 0 none ≡ none)
    × (m'.freetag ≡ 0)
    × ((j : ℕ) → j ≢ 0 → get_or m'.wait j none ≡ get_or one_call.wait j none)
    × IsMux m'
puttag-Freed_example = puttag-Freed 0 0 one_call one_call-IsMux refl refl
