-- ===== src/Rpc.antt =====
-- lib/libixp/rpc.c: the tags of a client's calls, and the answers handed to them. A pointer to an
-- IxpRpc is its index in `rpcs`; the locks are left out.
mod Search
mod Tags
mod Answers
mod Calls
mod Tests
use libixp.Prelude.{
  ℕ, zero, suc, ◌+◌, ◌-◌, ◌*◌, Bool, true, false, not, ◌&&◌, List, [], ◌∷◌, ◌++◌, Option, none,
  some, get_or, get_elem?, set, take, drop, length, replicate, ◌==◌, ltb, if◌then◌else◌,
}
use libixp.Wire.Types.{Fcall}

-- struct IxpRpc; `queued` is `prev != nil`. `waiting` is never read.
pub record Rpc : Type 0 where
  pub tag : ℕ
  pub queued : Bool
  pub p : Option Fcall
  pub async : Bool

-- What an IxpClient keeps of its calls; `mwait` is the length of `wait`, and `sleep` the queue from its
-- `next` on.
pub record Mux : Type 0 where
  pub wait : List (Option ℕ)
  pub nwait : ℕ
  pub freetag : ℕ
  pub mintag : ℕ
  pub maxtag : ℕ
  pub sleep : List ℕ
  pub rpcs : List Rpc
  pub muxer : Option ℕ

abbrev pub no_rpc : Rpc
no_rpc = record { tag = 0; queued = false; p = none; async = false }

-- initrpc, with what `async` holds on the stack before.
unfoldable pub initrpc : Bool → Mux → ℕ × Mux
initrpc junk m = (
  length m.rpcs,
  record m { rpcs = m.rpcs ++ record { tag = 0; queued = false; p = none; async = junk } ∷ [] },
)

-- A store to the IxpRpc at a pointer.
unfoldable pub on_rpc : ℕ → (Rpc → Rpc) → Mux → Mux
on_rpc q g m = record m { rpcs = set m.rpcs q (g (get_or m.rpcs q no_rpc)) }

unfoldable pub enqueue : ℕ → Mux → Mux
unfolding on_rpc
enqueue q m = on_rpc q (λ r. record r { queued = true }) (record m { sleep = q ∷ m.sleep })

unfoldable pub unlink : ℕ → List ℕ → List ℕ
unlink q [] = []
unlink q (p ∷ ps) = let rest = unlink q ps in if p == q then ps else p ∷ rest

unfoldable pub dequeue : ℕ → Mux → Mux
unfolding on_rpc unlink
dequeue q m = on_rpc q (λ r. record r { queued = false }) (record m { sleep = unlink q m.sleep })

-- The index of the first free tag of a list that begins at `i`.
unfoldable pub free_from : ℕ → List (Option ℕ) → Option ℕ
free_from i [] = none
free_from i (none ∷ w) = some i
free_from i (some q ∷ w) = free_from (suc i) w

-- The loop behind `freetag`, and the one before it.
abbrev pub or_before : List (Option ℕ) → Option ℕ → Option ℕ
or_before w none = free_from 0 w
or_before w (some i) = some i

-- The tag read at `freetag` first; a read outside the table is `none`.
unfoldable pub from_freetag : List (Option ℕ) → ℕ → Option (Option ℕ) → Option ℕ
unfolding free_from
from_freetag w i none = none
from_freetag w i (some none) = some i
from_freetag w i (some (some q)) = or_before (take i w) (free_from i (drop i w))

unfoldable pub find_tag : Mux → Option ℕ
unfolding from_freetag
find_tag m = from_freetag m.wait m.freetag (get_elem? m.wait m.freetag)

-- Found; `none` is the call of abort, or a read outside the table.
unfoldable pub take_tag : ℕ → Mux → Option ℕ → Option (Option ℕ × Mux)
unfolding on_rpc
take_tag q m none = none
take_tag q m (some i) = some (
  some (i + m.mintag),
  on_rpc q (λ r. record r { tag = i + m.mintag })
      (record m { nwait = m.nwait + 1; wait = set m.wait i (some q) }),
)

unfoldable pub grow : Mux → Mux
grow m =
    let n = length m.wait in
    let mw = if n == 0 then 1 else 2 * n in
    record m { wait = m.wait ++ replicate (mw - n) none; freetag = n }

-- `can_grow` is whether realloc succeeds; the inner `none` is -1, the outer one a wait for a tag, a
-- call of abort or a read outside the table.
unfoldable pub gettag : Bool → ℕ → Mux → Option (Option ℕ × Mux)
unfolding take_tag find_tag grow
gettag can_grow q m =
    if m.nwait == length m.wait
    then if ltb (length m.wait) (m.maxtag - m.mintag)
      then if can_grow then take_tag q (grow m) (find_tag (grow m)) else some (none, m)
      else none
    else take_tag q m (find_tag m)

-- `none` is a failed assertion.
unfoldable pub release_tag : ℕ → ℕ → Mux → Option ℕ → Option Mux
release_tag q i m none = none
release_tag q i m (some p) =
    if p == q
    then some (record m { wait = set m.wait i none; nwait = m.nwait - 1; freetag = i })
    else none

unfoldable pub puttag : ℕ → Mux → Option Mux
unfolding release_tag
puttag q m =
    let i = (get_or m.rpcs q no_rpc).tag - m.mintag in release_tag q i m (get_or m.wait i none)

-- dispatchandqlock: an answer that nobody waits for is freed.
unfoldable pub hand : Fcall → Mux → Option ℕ → Mux
unfolding on_rpc dequeue
hand f m none = m
hand f m (some q) =
    if (get_or m.rpcs q no_rpc).queued
    then dequeue q (on_rpc q (λ r. record r { p = some f }) m)
    else m

unfoldable pub dispatch_fcall : Fcall → Mux → Mux
unfolding hand
dispatch_fcall f m =
    if not (ltb f.tag m.mintag) && ltb (f.tag - m.mintag) (length m.wait)
    then hand f m (get_or m.wait (f.tag - m.mintag) none)
    else m

-- electmuxer
unfoldable pub first_sync : List Rpc → List ℕ → Option ℕ
first_sync rpcs [] = none
first_sync rpcs (q ∷ qs) =
    let rest = first_sync rpcs qs in if (get_or rpcs q no_rpc).async then rest else some q

unfoldable pub electmuxer : Mux → Mux
unfolding first_sync
electmuxer m = record m { muxer = first_sync m.rpcs m.sleep }
