-- ===== src/Pending/Delivery.antt =====
-- ixp_pending_write of lib/libixp/srv_util.c: the reads that wait and the data.
use libixp.Prelude.{
  ℕ, zero, suc, ◌≤◌, ◌≡◌, ◌≢◌, refl, sym, ap, ◌∙◌, List, [], ◌∷◌, ◌++◌, append_assoc, append-nil,
  map, Option, none, some, All, length, arith,
}
use mathlib.Core.Path.{subst}
use libixp.Pending.{
  PendingReads, RequestLink, Answer, data_of, give_answer, take_out, queue_of, store_queue,
  push_all, push_data, without, ixp_pending_respond, ixp_pending_write, respond_all,
}
use libixp.Pending.Queues.{
  queue_of-push_data, queue_of-store_queue_ne, fid_of_link-push_data, respond_all-step,
  pending_respond_lem,
}
use libixp.Pending.Order.{
  Owned, link_ne, p-take_out, fids-take_out, stream, answered, answered-Owned, answered-stream,
  fid_of_link-queue, delivered,
}

-- There is data for a request.
abbrev pub Filled : (ℕ → ℕ) → PendingReads → RequestLink → Type 0
Filled fid_of s x =
    (l : ℕ) × (dat : List ℕ) × (q : List (List ℕ)) × (s.p (fid_of x.req) ≡ some l)
    × (queue_of l s.fids ≡ some (dat ∷ q))

-- Each request has its own link and its own fid, which is pending.
abbrev pub Waiting : (ℕ → ℕ) → PendingReads → List RequestLink → Type 0
Waiting fid_of s [] = Unit
Waiting fid_of s (x ∷ xs) =
    (s.aux x.req ≡ some x.link)
    × (without x.link (x ∷ xs) ≡ xs)
    × ((l : ℕ) × (s.p (fid_of x.req) ≡ some l))
    × All (λ y. fid_of y.req ≢ fid_of x.req) xs
    × Waiting fid_of s xs

module _ (fid_of : ℕ → ℕ) where
  Waiting-same :
      (s t : PendingReads) (xs : List RequestLink)
      → t.aux ≡ s.aux
      → t.p ≡ s.p
      → Waiting fid_of s xs
      → Waiting fid_of t xs
  Waiting-same s t [] ea ep h = tt
  Waiting-same s t (x ∷ xs) ea ep (a, w, (l, p), n, h) =
      (rw ea a, w, (l, rw ep p), n, Waiting-same s t xs ea ep h)

  -- An answer to a request leaves the data of the other fids.
  Filled-answered :
      (r l : ℕ) (dat : List ℕ) (q : List (List ℕ)) (s : PendingReads) (xs : List RequestLink)
      → Owned s
      → s.p (fid_of r) ≡ some l
      → All (λ y. fid_of y.req ≢ fid_of r) xs
      → All (Filled fid_of s) xs
      → All (Filled fid_of (answered fid_of r l dat q s)) xs
  Filled-answered r l dat q s [] own e n h = tt
  Filled-answered r l dat q s (x ∷ xs) own e (ne, n) ((m, d, k, p, f), h) = (
    (
      m,
      d,
      k,
      rw (p-take_out fid_of (s.aux r) (record s { fids = store_queue l q s.fids })) p,
      rw
          (
            fids-take_out fid_of (s.aux r) (record s { fids = store_queue l q s.fids }),
            queue_of-store_queue_ne l m q s.fids
                (link_ne s (fid_of x.req) (fid_of r) m l own p e ne),
          )
          f,
    ),
    Filled-answered r l dat q s xs own e n h,
  )

  -- The requests of some answers.
  abbrev pub asked : List (ℕ × Answer) → List ℕ
  asked xs = map (λ (x : ℕ × Answer). x.0) xs

  asked-append : (xs ys : List (ℕ × Answer)) → asked (xs ++ ys) ≡ asked xs ++ asked ys
  asked-append [] ys = refl
  asked-append (x ∷ xs) ys = ap (λ rs. x.0 ∷ rs) (asked-append xs ys)

  -- What the loop leaves: each of its requests is answered, in order, no request waits, and the data is
  -- where it was or delivered.
  abbrev pub Served : PendingReads → List RequestLink → Option (Option PendingReads) → Type 0
  Served s xs none = ⊥
  Served s xs (some none) = ⊥
  Served s xs (some (some t)) =
      Owned t
      × (asked t.answers ≡ asked s.answers ++ map (λ x. x.req) xs)
      × (t.reqs ≡ [])
      × (t.local ≡ [])
      × (t.p ≡ s.p)
      × ((f : ℕ) → stream fid_of f t ≡ stream fid_of f s)

  Served-step :
      (s t : PendingReads) (x : RequestLink) (xs : List RequestLink)
      (o : Option (Option PendingReads))
      → asked t.answers ≡ asked s.answers ++ x.req ∷ []
      → t.p ≡ s.p
      → ((f : ℕ) → stream fid_of f t ≡ stream fid_of f s)
      → Served t xs o
      → Served s (x ∷ xs) o
  Served-step s t x xs none q e k h = h
  Served-step s t x xs (some none) q e k h = h
  Served-step s t x xs (some (some u)) q e k (own, a, r, l, p, h) = (
    own,
    a
        ∙ ap (λ rs. rs ++ map (λ y. y.req) xs) q
        ∙ append_assoc (asked s.answers) (x.req ∷ []) (map (λ y. y.req) xs),
    r,
    l,
    p ∙ e,
    λ f. h f ∙ k f,
  )

  respond_all-Served :
      (xs : List RequestLink) (fuel : ℕ) (s : PendingReads)
      → s.local ≡ xs
      → s.reqs ≡ []
      → length xs ≤ fuel
      → Owned s
      → Waiting fid_of s xs
      → All (Filled fid_of s) xs
      → Served s xs (respond_all fid_of fuel s)
  unfolding respond_all
  respond_all-Served [] zero s e r le own w h =
      rw e (own, sym (append-nil (asked s.answers)), r, refl, refl, λ f. refl)
  respond_all-Served [] (suc fuel) s e r le own w h =
      rw (Served, e) (own, sym (append-nil (asked s.answers)), r, e, refl, λ f. refl)
  respond_all-Served (x ∷ xs) zero s e r le own w h = absurd (omega (arith, le))
  respond_all-Served (x ∷ xs) (suc fuel) s e r le own (a, wo, (l, p), n, w) ((m, d, k, pm, f), h) =
      let t =
        give_answer x.req (data_of d)
          (take_out (some x.link) (record s { fids = store_queue m k s.fids })) in
      let same : answered fid_of x.req m d k s ≡ t = rw a refl in
      let st : ixp_pending_respond fid_of x.req s ≡ some t =
        pending_respond_lem fid_of x.req m (d ∷ k) s pm f ∙ ap some same in
      rw (respond_all-step fid_of fuel s t x xs e st) (
        Served-step s t x xs _ (asked-append s.answers _) refl
          (λ g. ap (stream fid_of g) (sym same) ∙ answered-stream fid_of x.req m d k s g own pm f)
          (respond_all-Served xs fuel t (rw e wo) (rw r refl) (omega (arith, le))
            (subst Owned same (answered-Owned fid_of x.req m d k s own))
            (Waiting-same s t xs refl refl w)
            (subst (λ u. All (Filled fid_of u) xs) same
              (Filled-answered x.req m d k s xs own pm n h))))

  abbrev pub IsPending : PendingReads → Type 0
  IsPending s = Owned s × Waiting fid_of s s.reqs

  abbrev pub IsWritten : PendingReads → List ℕ → Option (Option PendingReads) → Type 0
  IsWritten s d none = ⊥
  IsWritten s d (some none) = ⊥
  IsWritten s d (some (some t)) =
      IsPending t
      × (asked t.answers ≡ asked s.answers ++ map (λ x. x.req) s.reqs)
      × (t.reqs ≡ [])
      × ((f l : ℕ) → s.p f ≡ some l → stream fid_of f t ≡ stream fid_of f s ++ d ∷ [])

  push_all-Filled :
      (d : List ℕ) (s : PendingReads) (xs : List RequestLink)
      → Owned s
      → Waiting fid_of s xs
      → All (Filled fid_of (push_all d s)) xs
  push_all-Filled d s [] own w = tt
  push_all-Filled d s (x ∷ xs) own (_, _, (l, p), _, w) =
      let (q, eq) = fid_of_link-queue l (fid_of x.req) s.fids (own (fid_of x.req) l p) in
      (filled q (queue_of-push_data l d s.fids q eq) p, push_all-Filled d s xs own w)
    where
      filled :
          (q : List (List ℕ))
          → queue_of l (map (push_data d) s.fids) ≡ some (q ++ d ∷ [])
          → s.p (fid_of x.req) ≡ some l
          → Filled fid_of (push_all d s) x
      filled [] e ep = (l, d, [], ep, e)
      filled (c ∷ cs) e ep = (l, c, cs ++ d ∷ [], ep, e)

  push_all-stream :
      (d : List ℕ) (s : PendingReads) (f l : ℕ)
      → Owned s
      → s.p f ≡ some l
      → stream fid_of f (push_all d s) ≡ stream fid_of f s ++ d ∷ []
  push_all-stream d s f l own e =
      let (q, eq) = fid_of_link-queue l f s.fids (own f l e) in
      rw (e, queue_of-push_data l d s.fids q eq, eq)
        (sym (append_assoc (delivered fid_of f s.answers) q (d ∷ [])))

  Served-IsWritten :
      (d : List ℕ) (s : PendingReads) (o : Option (Option PendingReads))
      → Owned s
      → Served (push_all d s) s.reqs o
      → IsWritten s d o
  Served-IsWritten d s none own h = h
  Served-IsWritten d s (some none) own h = h
  Served-IsWritten d s (some (some t)) own (k, a, r, l, p, h) =
      ((k, subst (Waiting fid_of t) (sym r) tt), a, r, λ f m e. h f ∙ push_all-stream d s f m own e)

  -- If the link of each pending file is in the ring, and the requests that wait have links and fids of
  -- their own, fids that are pending, then a write of some data returns, with a turn for each request
  -- as fuel. Each request that waited is answered, once and in order, and no other; none waits then, and for every pending fid, what its reads were answered with,
  -- followed by its queue, is what it was followed by the data.
  pub pending_write-IsWritten :
      (fuel b : ℕ) (bs : List ℕ) (s : PendingReads)
      → IsPending s
      → length s.reqs ≤ fuel
      → IsWritten s (b ∷ bs) (ixp_pending_write fid_of fuel (b ∷ bs) s)
  unfolding ixp_pending_write
  pending_write-IsWritten fuel b bs s (own, w) le =
      let d = b ∷ bs in
      Served-IsWritten d s _ own (
        respond_all-Served s.reqs fuel (push_all d s) refl refl le
          (λ f l e. fid_of_link-push_data l d s.fids ∙ own f l e)
          (Waiting-same s (push_all d s) s.reqs refl refl w) (push_all-Filled d s s.reqs own w))
