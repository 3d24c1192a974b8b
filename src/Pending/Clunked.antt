-- ===== src/Pending/Clunked.antt =====
-- ixp_pending_clunk of lib/libixp/srv_util.c.
use libixp.Prelude.{
  ℕ, ◌≡◌, ◌≢◌, refl, sym, ap, ◌∙◌, List, [], ◌∷◌, ◌++◌, map, occurrences, ◌+◌, suc, true,
  append-nil, append_assoc, Option, none, some, ◌==◌, Bool, false, Bool-cases, inl, inr,
  if◌then◌else◌, arith,
}
use libixp.Pending.{
  PendingReads, PendingLink, RequestLink, Answer, interrupted, done, give_answer, flush_if,
  queue_of, without_link, fid_of_link, is_empty_ring, pending_flush, interrupt_all,
  ixp_pending_clunk,
}
use libixp.Pending.Order.{Owned, link_ne, queued, or_nil}

queue_of-without_link :
    (l m : ℕ) (ks : List PendingLink) → m ≢ l → queue_of m (without_link l ks) ≡ queue_of m ks
queue_of-without_link l m [] ne = refl
queue_of-without_link l m (k ∷ ks) ne = elim (Bool-cases (k.link == l)) [
  | inl t ↦ let no : (k.link == m) ≡ false = ground (arith, t, ne) in rw (t, no) refl
  | inr t ↦ rw (t, queue_of-without_link l m ks ne) refl
]

abbrev pub links : List PendingLink → List ℕ
links ks = map (λ k. k.link) ks

-- A link leaves the ring, and every other one stays.
abbrev pub Unlinked : ℕ → List PendingLink → List PendingLink → Type 0
Unlinked l ks ks' =
    (occurrences l (links ks') + 1 ≡ occurrences l (links ks))
    × ((m : ℕ) → m ≢ l → occurrences m (links ks') ≡ occurrences m (links ks))

without_link-Unlinked :
    (l f : ℕ) (ks : List PendingLink)
    → fid_of_link l ks ≡ some f
    → Unlinked l ks (without_link l ks)
without_link-Unlinked l f [] e = absurd (cc e)
without_link-Unlinked l f (k ∷ ks) e = elim (Bool-cases (k.link == l)) [
  | inl t ↦
      let yes : (l == k.link) ≡ true = ground (arith, t) in
      rw (t, yes) (omega arith, λ m ne. ground (arith, t, ne))
  | inr t ↦
      let no : (l == k.link) ≡ false = ground (arith, t) in
      let there : fid_of_link l (k ∷ ks) ≡ fid_of_link l ks = rw t refl in
      let (gone, left) = without_link-Unlinked l f ks (sym there ∙ e) in
      rw t (rw no gone, λ m ne. ap (λ n. if m == k.link then suc n else n) (left m ne))
]

module _ (fid_of : ℕ → ℕ) where
  -- An interruption for each request of the fid, in the order of the ring.
  abbrev pub interruptions : ℕ → List RequestLink → List (ℕ × Answer)
  interruptions f [] = []
  interruptions f (q ∷ qs) =
      let rest = interruptions f qs in
      if fid_of q.req == f then (q.req, interrupted) ∷ rest else rest

  -- More answers, and the links and files as they are.
  abbrev Interrupts : PendingReads → List (ℕ × Answer) → PendingReads → Type 0
  Interrupts s more t = (t.answers ≡ s.answers ++ more) × (t.fids ≡ s.fids) × (t.p ≡ s.p)

  flush_if-Interrupts : (o l : Option ℕ) (s : PendingReads) → Interrupts s [] (flush_if o l s)
  flush_if-Interrupts none l s = (sym (append-nil s.answers), refl, refl)
  flush_if-Interrupts (some p) none s = (sym (append-nil s.answers), refl, refl)
  flush_if-Interrupts (some p) (some l) s = (sym (append-nil s.answers), refl, refl)

  interrupt_all-Interrupts :
      (f : ℕ) (qs : List RequestLink) (s : PendingReads)
      → Interrupts s (interruptions f qs) (interrupt_all fid_of f qs s)
  unfolding interrupt_all
  interrupt_all-Interrupts f [] s = (sym (append-nil s.answers), refl, refl)
  interrupt_all-Interrupts f (q ∷ qs) s = elim (Bool-cases (fid_of q.req == f)) [
    | inl t ↦
        let u = pending_flush fid_of q.req s in
        let (a, k, p) = flush_if-Interrupts (s.p (fid_of q.req)) (s.aux q.req) s in
        let (a', k', p') = interrupt_all-Interrupts f qs (give_answer q.req interrupted u) in
        rw t (
          a'
              ∙ append_assoc u.answers ((q.req, interrupted) ∷ []) (interruptions f qs)
              ∙ ap (λ j. j ++ ((q.req, interrupted) ∷ interruptions f qs))
                  (a ∙ append-nil s.answers),
          k' ∙ k,
          p' ∙ p,
        )
    | inr t ↦ rw t (interrupt_all-Interrupts f qs s)
  ]

  abbrev pub IsClunked : ℕ → ℕ → PendingReads → Option (Bool × PendingReads) → Type 0
  IsClunked r l s none = ⊥
  IsClunked r l s (some (b, t)) =
      (b ≡ is_empty_ring t.fids)
      × Unlinked l s.fids t.fids
      × (t.answers ≡ s.answers ++ (interruptions (fid_of r) s.reqs ++ (r, done) ∷ []))
      × ((g m : ℕ) → s.p g ≡ some m → g ≢ fid_of r → queued (t.p g) t.fids ≡ queued (s.p g) s.fids)

  -- If the link of each pending file is in the ring, a clunk of a pending fid returns. Each read of
  -- the fid that waits is answered with an interruption, in the order of the ring, and then the clunk
  -- without an error. The fid's link leaves the ring and every other one stays. The queues of the other pending fids stay, and the result is whether no fid is
  -- left.
  pub pending_clunk-IsClunked :
      (r l : ℕ) (s : PendingReads)
      → Owned s
      → s.p (fid_of r) ≡ some l
      → IsClunked r l s (ixp_pending_clunk fid_of r s)
  unfolding ixp_pending_clunk
  pending_clunk-IsClunked r l s own e =
      let (a, k, p) = interrupt_all-Interrupts (fid_of r) s.reqs s in
      rw (e, own (fid_of r) l e)
        (
          refl,
          rw k (without_link-Unlinked l (fid_of r) s.fids (own (fid_of r) l e)),
          ap (λ j. j ++ (r, done) ∷ []) a
              ∙ append_assoc s.answers (interruptions (fid_of r) s.reqs) _,
          λ g m z ne.
              rw (p, k, z)
                (ap or_nil
                  (queue_of-without_link l m s.fids (link_ne s g (fid_of r) m l own z e ne))),
        )
