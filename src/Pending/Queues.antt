-- ===== src/Pending/Queues.antt =====
-- The queues of the fids' links (lib/libixp/srv_util.c).
use libixp.Prelude.{
  ℕ, suc, ◌≡◌, ◌≢◌, refl, sym, ◌∙◌, List, [], ◌∷◌, ◌++◌, map, none, some, ◌==◌, true, false,
  Bool-cases, inl, inr, arith,
}
use libixp.Pending.{
  PendingLink, RequestLink, PendingReads, queue_of, store_queue, fid_of_link, push_data,
  respond_from, ixp_pending_respond, respond_all,
}

queue_of_here :
    (l : ℕ) (k : PendingLink) (ks : List PendingLink) (q : List (List ℕ))
    → (k.link == l) ≡ true
    → queue_of l (k ∷ ks) ≡ some q
    → k.queue ≡ q
queue_of_here l k ks q t e =
    let here : queue_of l (k ∷ ks) ≡ some k.queue = rw t refl in
    let same : some k.queue ≡ some q = sym here ∙ e in cc

queue_of_there :
    (l : ℕ) (k : PendingLink) (ks : List PendingLink)
    → (k.link == l) ≡ false
    → queue_of l (k ∷ ks) ≡ queue_of l ks
queue_of_there l k ks t = rw t refl

pub queue_of-push_data :
    (l : ℕ) (dat : List ℕ) (ks : List PendingLink) (q : List (List ℕ))
    → queue_of l ks ≡ some q
    → queue_of l (map (push_data dat) ks) ≡ some (q ++ dat ∷ [])
queue_of-push_data l dat [] q e = cc
queue_of-push_data l dat (k ∷ ks) q e = elim (Bool-cases (k.link == l)) [
  | inl t ↦ rw (t, queue_of_here l k ks q t e) refl
  | inr t ↦ rw (t, queue_of-push_data l dat ks q (sym (queue_of_there l k ks t) ∙ e)) refl
]

pub fid_of_link-push_data :
    (l : ℕ) (dat : List ℕ) (ks : List PendingLink)
    → fid_of_link l (map (push_data dat) ks) ≡ fid_of_link l ks
fid_of_link-push_data l dat [] = refl
fid_of_link-push_data l dat (k ∷ ks) = rw (fid_of_link-push_data l dat ks) refl

pub queue_of-store_queue :
    (l : ℕ) (q q' : List (List ℕ)) (ks : List PendingLink)
    → queue_of l ks ≡ some q'
    → queue_of l (store_queue l q ks) ≡ some q
queue_of-store_queue l q q' [] e = cc
queue_of-store_queue l q q' (k ∷ ks) e = elim (Bool-cases (k.link == l)) [
  | inl t ↦ rw (t, t) refl
  | inr t ↦ rw (t, t) (queue_of-store_queue l q q' ks (sym (queue_of_there l k ks t) ∙ e))
]

pub queue_of-store_queue_ne :
    (l m : ℕ) (q : List (List ℕ)) (ks : List PendingLink)
    → m ≢ l
    → queue_of m (store_queue l q ks) ≡ queue_of m ks
queue_of-store_queue_ne l m q [] ne = refl
queue_of-store_queue_ne l m q (k ∷ ks) ne = elim (Bool-cases (k.link == l)) [
  | inl t ↦ let no : (k.link == m) ≡ false = ground (arith, t, ne) in rw (t, no) refl
  | inr t ↦ rw (t, queue_of-store_queue_ne l m q ks ne) refl
]

pub fid_of_link-store_queue :
    (l m : ℕ) (q : List (List ℕ)) (ks : List PendingLink)
    → fid_of_link m (store_queue l q ks) ≡ fid_of_link m ks
fid_of_link-store_queue l m q [] = refl
fid_of_link-store_queue l m q (k ∷ ks) = elim (Bool-cases (k.link == l)) [
  | inl t ↦ rw t refl
  | inr t ↦ rw (t, fid_of_link-store_queue l m q ks) refl
]

pub fid_of_link-append :
    (l f : ℕ) (ks : List PendingLink) (k : PendingLink)
    → fid_of_link l ks ≡ some f
    → fid_of_link l (ks ++ k ∷ []) ≡ some f
fid_of_link-append l f [] k e = cc
fid_of_link-append l f (j ∷ ks) k e = elim (Bool-cases (j.link == l)) [
  | inl t ↦ let here : fid_of_link l (j ∷ ks) ≡ some j.fid = rw t refl in rw t (sym here ∙ e)
  | inr t ↦
      let there : fid_of_link l (j ∷ ks) ≡ fid_of_link l ks = rw t refl in
      rw t (fid_of_link-append l f ks k (sym there ∙ e))
]

pub fid_of_link-append_new :
    (l : ℕ) (ks : List PendingLink) (k : PendingLink)
    → fid_of_link l ks ≡ none
    → k.link ≡ l
    → fid_of_link l (ks ++ k ∷ []) ≡ some k.fid
fid_of_link-append_new l [] k e el = let t : (k.link == l) ≡ true = ground (arith, el) in rw t refl
fid_of_link-append_new l (j ∷ ks) k e el = elim (Bool-cases (j.link == l)) [
  | inl t ↦
      let here : fid_of_link l (j ∷ ks) ≡ some j.fid = rw t refl in
      let no : some j.fid ≡ none = sym here ∙ e in cc
  | inr t ↦
      let there : fid_of_link l (j ∷ ks) ≡ fid_of_link l ks = rw t refl in
      rw t (fid_of_link-append_new l ks k (sym there ∙ e) el)
]

module _ (fid_of : ℕ → ℕ) where
  pub respond_all-step :
      (fuel : ℕ) (s t : PendingReads) (q : RequestLink) (qs : List RequestLink)
      → s.local ≡ q ∷ qs
      → ixp_pending_respond fid_of q.req s ≡ some t
      → respond_all fid_of (suc fuel) s ≡ respond_all fid_of fuel t
  unfolding respond_all
  respond_all-step fuel s t q qs e er = rw (respond_all, e, er) refl

  pub pending_respond_lem :
      (r l : ℕ) (q : List (List ℕ)) (s : PendingReads)
      → s.p (fid_of r) ≡ some l
      → queue_of l s.fids ≡ some q
      → ixp_pending_respond fid_of r s ≡ respond_from r l (some q) s
  unfolding ixp_pending_respond
  pending_respond_lem r l q s ep eq = simp (ep, eq) refl
