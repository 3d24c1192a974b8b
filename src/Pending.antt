-- ===== src/Pending.antt =====
-- lib/libixp/srv_util.c: pending reads (ixp_pending_write, _respond, _pushfid, _flush and _clunk).
pub mod Queues
pub mod Rounds
pub mod Order
pub mod Delivery
pub mod Clunked
mod Tests
use libixp.Prelude.{
  ℕ, zero, suc, ◌+◌, Bool, true, false, List, [], ◌∷◌, ◌++◌, map, Option, none, some, ◌==◌,
  if◌then◌else◌,
}

-- IxpPendingLink; a pointer to one is its number. The queue has the data of each IxpQueue.
pub record PendingLink : Type 0 where
  pub link : ℕ
  pub fid : ℕ
  pub queue : List (List ℕ)

-- IxpRequestLink, with its number.
pub record RequestLink : Type 0 where
  pub link : ℕ
  pub req : ℕ

-- An answer: data, an interruption, or no error.
pub data Answer : Type 0 where
  data_of : List ℕ → Answer
  interrupted : Answer
  done : Answer

-- IxpPending, a ring being the list of its links, with the ring on the stack of ixp_pending_write,
-- the members `aux` of the requests and `p` of the fids' files (nil where the file is not pending),
-- the answers and the number of the next link.
pub record PendingReads : Type 0 where
  pub reqs : List RequestLink
  pub fids : List PendingLink
  pub local : List RequestLink
  pub aux : ℕ → Option ℕ
  pub p : ℕ → Option ℕ
  pub answers : List (ℕ × Answer)
  pub fresh : ℕ

abbrev pub update : (ℕ → Option ℕ) → ℕ → Option ℕ → ℕ → Option ℕ
update f k v x = if x == k then v else f x

-- Taking a link out of the ring that it is on.
abbrev pub without : ℕ → List RequestLink → List RequestLink
without l [] = []
without l (q ∷ qs) = let rest = without l qs in if q.link == l then rest else q ∷ rest

abbrev pub take_out : Option ℕ → PendingReads → PendingReads
take_out none s = s
take_out (some l) s = record s { reqs = without l s.reqs; local = without l s.local }

-- The queue of a link; nil is a link that is not there.
abbrev pub queue_of : ℕ → List PendingLink → Option (List (List ℕ))
queue_of l [] = none
queue_of l (k ∷ ks) = let rest = queue_of l ks in if k.link == l then some k.queue else rest

abbrev pub store_queue : ℕ → List (List ℕ) → List PendingLink → List PendingLink
store_queue l q [] = []
store_queue l q (k ∷ ks) =
    let rest = store_queue l q ks in if k.link == l then record k { queue = q } ∷ ks else k ∷ rest

abbrev pub give_answer : ℕ → Answer → PendingReads → PendingReads
give_answer r a s = record s { answers = s.answers ++ (r, a) ∷ [] }

-- The request waits: a new link at the end of the ring, whether it had one or not.
abbrev pub hold : ℕ → PendingReads → PendingReads
hold r s = record s {
  reqs = s.reqs ++ record { link = s.fresh; req = r } ∷ [];
  aux = update s.aux r (some s.fresh);
  fresh = suc s.fresh;
}

-- `l` is the link of the request's fid, with its queue.
abbrev pub respond_from : ℕ → ℕ → Option (List (List ℕ)) → PendingReads → Option PendingReads
respond_from r l none s = none
respond_from r l (some []) s = some (hold r s)
respond_from r l (some (dat ∷ q)) s =
    some (
      give_answer r (data_of dat) (take_out (s.aux r) (record s { fids = store_queue l q s.fids })))

abbrev pub if_pending {ℓ} : {A : Type ℓ} → Option ℕ → (ℕ → Option A) → Option A
if_pending none k = none
if_pending (some l) k = k l

-- At the end of each queue.
abbrev pub push_data : List ℕ → PendingLink → PendingLink
push_data dat k = record k { queue = k.queue ++ dat ∷ [] }

-- The pushes of a write, and the ring of requests moved to the local one.
abbrev pub push_all : List ℕ → PendingReads → PendingReads
push_all dat s = record s { fids = map (push_data dat) s.fids; local = s.reqs; reqs = [] }

abbrev pub if_done : List RequestLink → PendingReads → Option (Option PendingReads)
if_done [] s = some (some s)
if_done (q ∷ qs) s = none

abbrev pub fid_of_link : ℕ → List PendingLink → Option ℕ
fid_of_link l [] = none
fid_of_link l (k ∷ ks) = let rest = fid_of_link l ks in if k.link == l then some k.fid else rest

abbrev pub without_link : ℕ → List PendingLink → List PendingLink
without_link l [] = []
without_link l (k ∷ ks) = let rest = without_link l ks in if k.link == l then ks else k ∷ rest

abbrev pub is_empty_ring : List PendingLink → Bool
is_empty_ring [] = true
is_empty_ring (k ∷ ks) = false

-- A new link at the end of the ring.
unfoldable pub ixp_pending_pushfid : ℕ → PendingReads → PendingReads
ixp_pending_pushfid f s = record s {
  fids = s.fids ++ record { link = s.fresh; fid = f; queue = [] } ∷ [];
  p = update s.p f (some s.fresh);
  fresh = suc s.fresh;
}

abbrev pub flush_if : Option ℕ → Option ℕ → PendingReads → PendingReads
flush_if none l s = s
flush_if (some p) l s = take_out l s

-- `fid_of` is the fid of a request.
module _ (fid_of : ℕ → ℕ) where
  -- `none` is a failed assertion.
  unfoldable pub ixp_pending_respond : ℕ → PendingReads → Option PendingReads
  ixp_pending_respond r s =
      if_pending (s.p (fid_of r)) (λ l. respond_from r l (queue_of l s.fids) s)

  -- The loop over the local ring, on fuel; the outer `none` is a loop that still runs, the inner one a
  -- failed assertion.
  unfoldable pub respond_all : ℕ → PendingReads → Option (Option PendingReads)
  respond_all zero s = if_done s.local s
  respond_all (suc fuel) s = elim s.local [
    | [] ↦ some (some s)
    | q ∷ _ ↦ elim (ixp_pending_respond q.req s) [
      | none ↦ some none
      | some s' ↦ respond_all fuel s'
    ]
  ]

  unfoldable pub ixp_pending_write : ℕ → List ℕ → PendingReads → Option (Option PendingReads)
  ixp_pending_write fuel [] s = some (some s)
  ixp_pending_write fuel (b ∷ bs) s = respond_all fuel (push_all (b ∷ bs) s)

  unfoldable pub pending_flush : ℕ → PendingReads → PendingReads
  pending_flush r s = flush_if (s.p (fid_of r)) (s.aux r) s

  -- The request's oldreq.
  unfoldable pub ixp_pending_flush : ℕ → PendingReads → PendingReads
  unfolding pending_flush
  ixp_pending_flush oldreq s = pending_flush oldreq s

  -- The loop over the links that the ring has at first; `f` is the fid of the file's link.
  unfoldable pub interrupt_all : ℕ → List RequestLink → PendingReads → PendingReads
  unfolding pending_flush
  interrupt_all f [] s = s
  interrupt_all f (q ∷ qs) s =
      let rest = interrupt_all f qs in
      if fid_of q.req == f
      then rest (give_answer q.req interrupted (pending_flush q.req s))
      else rest s

  abbrev pub clunk_link : ℕ → ℕ → PendingReads → Bool × PendingReads
  clunk_link r l s =
      let ks = without_link l s.fids in
      (is_empty_ring ks, give_answer r done (record s { fids = ks }))

  unfoldable pub ixp_pending_clunk : ℕ → PendingReads → Option (Bool × PendingReads)
  unfolding interrupt_all
  ixp_pending_clunk r s = if_pending (s.p (fid_of r)) (λ l.
      if_pending (fid_of_link l s.fids) (λ f. some (clunk_link r l (interrupt_all f s.reqs s))))
