-- ===== src/Pending/Order.antt =====
-- The order of the data that the reads of a fid are answered with (lib/libixp/srv_util.c).
use libixp.Prelude.{
  ℕ, ◌≡◌, ◌≢◌, refl, sym, ap, ◌∙◌, List, [], ◌∷◌, ◌++◌, append-nil, append_assoc, Option, none,
  some, ◌==◌, ==_iff, true, false, Bool-cases, Option-cases, inl, inr, if◌then◌else◌, arith,
}
use mathlib.Core.Path.{subst}
use libixp.Pending.{
  PendingReads, PendingLink, Answer, data_of, interrupted, done, give_answer, take_out, hold,
  queue_of, store_queue, update, ixp_pending_pushfid, fid_of_link, ixp_pending_respond,
}
use libixp.Pending.Queues.{
  queue_of-store_queue, queue_of-store_queue_ne, fid_of_link-store_queue, fid_of_link-append,
  fid_of_link-append_new, pending_respond_lem,
}

abbrev pub data_in : Answer → List (List ℕ)
data_in (data_of d) = d ∷ []
data_in interrupted = []
data_in done = []

abbrev pub or_nil : Option (List (List ℕ)) → List (List ℕ)
or_nil none = []
or_nil (some q) = q

abbrev pub queued : Option ℕ → List PendingLink → List (List ℕ)
queued none ks = []
queued (some l) ks = or_nil (queue_of l ks)

-- The link of a pending file is in the ring, with its fid.
abbrev pub Owned : PendingReads → Type 0
Owned s = (f l : ℕ) → s.p f ≡ some l → fid_of_link l s.fids ≡ some f

pub fid_of_link-queue :
    (l f : ℕ) (ks : List PendingLink)
    → fid_of_link l ks ≡ some f
    → (q : List (List ℕ)) × (queue_of l ks ≡ some q)
fid_of_link-queue l f [] e = cc
fid_of_link-queue l f (k ∷ ks) e = elim (Bool-cases (k.link == l)) [
  | inl t ↦ (k.queue, rw t refl)
  | inr t ↦
      let there : fid_of_link l (k ∷ ks) ≡ fid_of_link l ks = rw t refl in
      let (q, eq) = fid_of_link-queue l f ks (sym there ∙ e) in (q, rw (t, eq) refl)
]

pub link_ne :
    (s : PendingReads) (f g m l : ℕ) → Owned s → s.p f ≡ some m → s.p g ≡ some l → f ≢ g → m ≢ l
link_ne s f g m l own z e ne same =
    let both : some f ≡ some g =
      sym (own f m z) ∙ ap (λ j. fid_of_link j s.fids) same ∙ own g l e in
    ne (cc)

-- A store to one fid's queue leaves the others.
pub queued-store_queue :
    (s : PendingReads) (f g l : ℕ) (q : List (List ℕ))
    → Owned s
    → s.p g ≡ some l
    → f ≢ g
    → queued (s.p f) (store_queue l q s.fids) ≡ queued (s.p f) s.fids
queued-store_queue s f g l q own e ne = elim (Option-cases (s.p f)) [
  | inl z ↦ rw z refl
  | inr (m, z) ↦ rw (z, queue_of-store_queue_ne l m q s.fids (link_ne s f g m l own z e ne)) refl
]

-- pushfid gives the fid's file a link that is in the ring.
pub pushfid-Owned :
    (f : ℕ) (s : PendingReads)
    → fid_of_link s.fresh s.fids ≡ none
    → Owned s
    → Owned (ixp_pending_pushfid f s)
unfolding ixp_pending_pushfid
pushfid-Owned f s new own g l e =
    let k : PendingLink = record { link = s.fresh; fid = f; queue = [] } in
    elim (Bool-cases (g == f)) [
      | inl t ↦
          let pg : update s.p f (some s.fresh) g ≡ some s.fresh = rw t refl in
          let both : some s.fresh ≡ some l = sym pg ∙ e in
          let same : s.fresh ≡ l = cc in
          subst (λ j. fid_of_link j (s.fids ++ k ∷ []) ≡ some g) same
            (fid_of_link-append_new s.fresh s.fids k new refl ∙ ap some (sym ((==_iff g f).0 t)))
      | inr t ↦
          let pg : update s.p f (some s.fresh) g ≡ s.p g = rw t refl in
          fid_of_link-append l g s.fids k (own g l (sym pg ∙ e))
    ]

module _ (fid_of : ℕ → ℕ) where
  -- The data that the reads of a fid were answered with.
  abbrev pub delivered : ℕ → List (ℕ × Answer) → List (List ℕ)
  delivered f [] = []
  delivered f ((r, a) ∷ xs) =
      let rest = delivered f xs in if fid_of r == f then data_in a ++ rest else rest

  -- With what is still in its queue.
  abbrev pub stream : ℕ → PendingReads → List (List ℕ)
  stream f s = delivered f s.answers ++ queued (s.p f) s.fids

  delivered-here :
      (f r : ℕ) (a : Answer) (xs : List (ℕ × Answer))
      → (fid_of r == f) ≡ true
      → delivered f (xs ++ (r, a) ∷ []) ≡ delivered f xs ++ data_in a
  delivered-here f r a [] t = rw t (append-nil (data_in a))
  delivered-here f r a ((x, b) ∷ xs) t = elim (Bool-cases (fid_of x == f)) [
    | inl u ↦
        rw (u, delivered-here f r a xs t)
          (sym (append_assoc (data_in b) (delivered f xs) (data_in a)))
    | inr u ↦ rw (u, delivered-here f r a xs t) refl
  ]

  delivered-other :
      (f r : ℕ) (a : Answer) (xs : List (ℕ × Answer))
      → (fid_of r == f) ≡ false
      → delivered f (xs ++ (r, a) ∷ []) ≡ delivered f xs
  delivered-other f r a [] t = rw t refl
  delivered-other f r a ((x, b) ∷ xs) t = rw (delivered-other f r a xs t) refl

  abbrev pub answered : ℕ → ℕ → List ℕ → List (List ℕ) → PendingReads → PendingReads
  answered r l dat q s =
      give_answer r (data_of dat) (take_out (s.aux r) (record s { fids = store_queue l q s.fids }))

  -- What a request takes out of a ring is in no queue and no answer.
  pub Owned-take_out : (o : Option ℕ) (s : PendingReads) → Owned s → Owned (take_out o s)
  Owned-take_out none s h = h
  Owned-take_out (some l) s h = h

  pub answers-take_out : (o : Option ℕ) (s : PendingReads) → (take_out o s).answers ≡ s.answers
  answers-take_out none s = refl
  answers-take_out (some l) s = refl

  pub fids-take_out : (o : Option ℕ) (s : PendingReads) → (take_out o s).fids ≡ s.fids
  fids-take_out none s = refl
  fids-take_out (some l) s = refl

  pub p-take_out : (o : Option ℕ) (s : PendingReads) → (take_out o s).p ≡ s.p
  p-take_out none s = refl
  p-take_out (some l) s = refl

  pub answered-Owned :
      (r l : ℕ) (dat : List ℕ) (q : List (List ℕ)) (s : PendingReads)
      → Owned s
      → Owned (answered r l dat q s)
  answered-Owned r l dat q s own f m e =
      let s' = record s { fids = store_queue l q s.fids } in
      Owned-take_out (s.aux r) s' (λ g k h. fid_of_link-store_queue l k q s.fids ∙ own g k h) f m e

  -- An answer moves the head of the fid's queue to what was delivered.
  pub answered-stream :
      (r l : ℕ) (dat : List ℕ) (q : List (List ℕ)) (s : PendingReads) (f : ℕ)
      → Owned s
      → s.p (fid_of r) ≡ some l
      → queue_of l s.fids ≡ some (dat ∷ q)
      → stream f (answered r l dat q s) ≡ stream f s
  answered-stream r l dat q s f own e eq =
      let s' = record s { fids = store_queue l q s.fids } in
      rw (answers-take_out (s.aux r) s', fids-take_out (s.aux r) s', p-take_out (s.aux r) s')
        (elim (Bool-cases (fid_of r == f)) [
          | inl t ↦
              let ef : s.p f ≡ some l = subst (λ g. s.p g ≡ some l) ((==_iff (fid_of r) f).0 t) e in
              rw
                (
                  delivered-here f r (data_of dat) s.answers t,
                  ef,
                  eq,
                  queue_of-store_queue l q (dat ∷ q) s.fids eq,
                )
                (append_assoc (delivered f s.answers) (dat ∷ []) q)
          | inr t ↦ rw (delivered-other f r (data_of dat) s.answers t) (
              ap (λ j. delivered f s.answers ++ j)
                (queued-store_queue s f (fid_of r) l q own e (λ z. ground (arith, t, z))))
        ])

  respond_from-stream :
      (r l : ℕ) (q : List (List ℕ)) (s : PendingReads)
      → Owned s
      → s.p (fid_of r) ≡ some l
      → queue_of l s.fids ≡ some q
      → (t : PendingReads) × (ixp_pending_respond fid_of r s ≡ some t)
        × Owned t
        × ((f : ℕ) → stream f t ≡ stream f s)
  respond_from-stream r l [] s own e eq =
      (hold r s, pending_respond_lem fid_of r l [] s e eq, own, λ f. refl)
  respond_from-stream r l (dat ∷ q) s own e eq = (
    answered r l dat q s,
    pending_respond_lem fid_of r l (dat ∷ q) s e eq,
    answered-Owned r l dat q s own,
    λ f. answered-stream r l dat q s f own e eq,
  )

  -- What a read of a pending fid does: it is answered with the head of the fid's queue, or waits; and
  -- what the fid's reads were answered with, with what is in its queue, stays the same, in order.
  pub pending_respond-stream :
      (r l : ℕ) (s : PendingReads)
      → Owned s
      → s.p (fid_of r) ≡ some l
      → (t : PendingReads) × (ixp_pending_respond fid_of r s ≡ some t)
        × Owned t
        × ((f : ℕ) → stream f t ≡ stream f s)
  pending_respond-stream r l s own e =
      let (q, eq) = fid_of_link-queue l (fid_of r) s.fids (own (fid_of r) l e) in
      respond_from-stream r l q s own e eq
