-- ===== src/Pending/Rounds.antt =====
-- The loop of ixp_pending_write in lib/libixp/srv_util.c where two reads of one fid wait.
use libixp.Prelude.{
  ℕ, zero, suc, ◌≡◌, refl, ◌∙◌, List, [], ◌∷◌, none, some, ◌==◌, true, false, arith,
}
use libixp.Pending.{
  give_answer, data_of, take_out, PendingReads, RequestLink, queue_of, store_queue, hold, push_all,
  without, ixp_pending_write, respond_all,
}
use libixp.Pending.Queues.{
  queue_of-push_data, queue_of-store_queue, respond_all-step, pending_respond_lem,
}

module _ (fid_of : ℕ → ℕ) where
  -- A request at the head for which there is no data stays there.
  respond_all-none :
      (fuel : ℕ) (s : PendingReads) (q : RequestLink) (qs : List RequestLink) (l : ℕ)
      → s.local ≡ q ∷ qs
      → s.p (fid_of q.req) ≡ some l
      → queue_of l s.fids ≡ some []
      → respond_all fid_of fuel s ≡ none
  unfolding respond_all
  respond_all-none zero s q qs l e ep eq = rw e refl
  respond_all-none (suc fuel) s q qs l e ep eq =
      respond_all-step fid_of fuel s (hold q.req s) q qs e
        (pending_respond_lem fid_of q.req l [] s ep eq)
      ∙ respond_all-none fuel (hold q.req s) q qs l e ep eq

  -- If the first two reads that wait are of one pending fid, whose queue is empty, have different links
  -- and the first one's `aux` is its link, then a write of data that is not empty still runs, whatever
  -- the fuel, with no failed assertion.
  pub pending_write_forever :
      (fuel : ℕ) (s : PendingReads) (b : ℕ) (bs : List ℕ) (q1 q2 : RequestLink)
      (qs : List RequestLink) (l : ℕ)
      → s.reqs ≡ q1 ∷ q2 ∷ qs
      → fid_of q2.req ≡ fid_of q1.req
      → s.p (fid_of q1.req) ≡ some l
      → queue_of l s.fids ≡ some []
      → s.aux q1.req ≡ some q1.link
      → (q2.link == q1.link) ≡ false
      → ixp_pending_write fid_of fuel (b ∷ bs) s ≡ none
  unfolding ixp_pending_write respond_all
  pending_write_forever zero s b bs q1 q2 qs l e same ep eq ea ne = rw e refl
  pending_write_forever (suc fuel) s b bs q1 q2 qs l e same ep eq ea ne =
      let t = push_all (b ∷ bs) s in
      let u =
        give_answer q1.req (data_of (b ∷ bs))
          (take_out (some q1.link) (record t { fids = store_queue l [] t.fids })) in
      let pushed = queue_of-push_data l (b ∷ bs) s.fids [] eq in
      let left : u.local ≡ q2 ∷ without q1.link qs =
        let self : (q1.link == q1.link) ≡ true = ground arith in rw (e, self, ne) refl in
      respond_all-step fid_of fuel t u q1 (q2 ∷ qs) e
        (pending_respond_lem fid_of q1.req l ((b ∷ bs) ∷ []) t ep pushed ∙ rw ea refl)
      ∙ respond_all-none fuel u q2 (without q1.link qs) l left (rw same ep)
          (queue_of-store_queue l [] _ t.fids pushed)
