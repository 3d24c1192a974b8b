-- ===== src/Pending/Tests.antt =====
-- Tests of the pending reads (lib/libixp/srv_util.c), and examples for their theorems.
use libixp.Prelude.{
  ℕ, ◌≡◌, refl, List, [], ◌∷◌, Option, none, some, ◌==◌, Bool, false, if◌then◌else◌, arith,
}
use libixp.Pending.{
  PendingReads, Answer, data_of, hold, respond_all, ixp_pending_pushfid, ixp_pending_respond,
  ixp_pending_write, ixp_pending_flush, ixp_pending_clunk,
}
use libixp.Pending.Order.{Owned, pushfid-Owned}
use libixp.Pending.Delivery.{IsPending, IsWritten, pending_write-IsWritten}
use libixp.Pending.Clunked.{IsClunked, pending_clunk-IsClunked}
use libixp.Pending.Rounds.{pending_write_forever}

abbrev nothing : PendingReads
nothing = record {
  reqs = [];
  fids = [];
  local = [];
  aux = λ r. none;
  p = λ f. none;
  answers = [];
  fresh = 0;
}

-- Request 0 is of fid 1, the others of fid 2.
abbrev fid_of : ℕ → ℕ
fid_of r = if r == 0 then 1 else 2

abbrev two_fids : PendingReads
two_fids = ixp_pending_pushfid 2 (ixp_pending_pushfid 1 nothing)

-- A read of each fid waits.
abbrev both_wait : PendingReads
both_wait = hold 1 (hold 0 two_fids)

abbrev answers_of : Option (Option PendingReads) → List (ℕ × Answer)
answers_of none = []
answers_of (some none) = []
answers_of (some (some s)) = s.answers

write_to_both :
    answers_of (ixp_pending_write fid_of 2 (7 ∷ []) both_wait)
    ≡ (0, data_of (7 ∷ [])) ∷ (1, data_of (7 ∷ [])) ∷ []
unfolding ixp_pending_write ixp_pending_respond respond_all ixp_pending_pushfid
write_to_both = refl

-- A read after a write for which nobody waited.
abbrev read_after : Option (Option PendingReads) → Option (Option PendingReads)
read_after none = none
read_after (some none) = some none
read_after (some (some s)) = some (ixp_pending_respond fid_of 0 s)

read_later :
    answers_of (read_after (ixp_pending_write fid_of 0 (7 ∷ []) two_fids))
    ≡ (0, data_of (7 ∷ [])) ∷ []
unfolding ixp_pending_write ixp_pending_respond respond_all ixp_pending_pushfid
read_later = refl

both_wait-Owned : Owned both_wait
unfolding ixp_pending_pushfid
both_wait-Owned =
    pushfid-Owned 2 (ixp_pending_pushfid 1 nothing) refl
      (pushfid-Owned 1 nothing refl (λ f l e. cc))

both_wait-IsPending : IsPending fid_of both_wait
unfolding ixp_pending_pushfid
both_wait-IsPending = (
  both_wait-Owned,
  (refl, refl, (0, refl), ((λ e. absurd (omega (arith, e))), tt), (refl, refl, (1, refl), tt, tt)),
)

pending_write-IsWritten_example :
    IsWritten fid_of both_wait (7 ∷ 8 ∷ []) (ixp_pending_write fid_of 2 (7 ∷ 8 ∷ []) both_wait)
unfolding ixp_pending_pushfid
pending_write-IsWritten_example =
    pending_write-IsWritten fid_of 2 7 (8 ∷ []) both_wait both_wait-IsPending (omega arith)

-- Two reads of fid 1 wait.
abbrev one_fid_of : ℕ → ℕ
one_fid_of r = 1

pending_write_forever_example : ixp_pending_write one_fid_of 9 (7 ∷ []) both_wait ≡ none
unfolding ixp_pending_pushfid
pending_write_forever_example =
    pending_write_forever one_fid_of 9 both_wait 7 [] (record { link = 2; req = 0 })
      (record { link = 3; req = 1 }) [] 0 refl refl refl refl refl refl

pending_clunk-IsClunked_example :
    IsClunked fid_of 0 0 both_wait (ixp_pending_clunk fid_of 0 both_wait)
unfolding ixp_pending_pushfid
pending_clunk-IsClunked_example = pending_clunk-IsClunked fid_of 0 0 both_wait both_wait-Owned refl

-- The request that is flushed leaves the ring; the other one stays.
flush_one : (ixp_pending_flush fid_of 0 both_wait).reqs ≡ record { link = 3; req = 1 } ∷ []
unfolding ixp_pending_flush ixp_pending_pushfid
flush_one = refl

abbrev more_of : Option (Bool × PendingReads) → Bool
more_of none = false
more_of (some (b, s)) = b

-- One fid is left after the clunk of the other, and the result is false.
clunk_one : more_of (ixp_pending_clunk fid_of 0 both_wait) ≡ false
unfolding ixp_pending_clunk ixp_pending_pushfid
clunk_one = refl
