-- ===== src/Rpc/Tags.antt =====
-- Every call has a tag of its own (lib/libixp/rpc.c).
use libixp.Prelude.{
  ℕ, zero, suc, ◌+◌, ◌-◌, ◌*◌, ◌≤◌, ◌<◌, ◌≡◌, ◌≢◌, refl, sym, ap, ◌∙◌, true, ◌⊎◌, inl, inr,
  Bool-cases, List, [], ◌∷◌, ◌++◌, Option, none, some, get_or, set, length, replicate,
  length-append, length-replicate, length-set, get_or-set_self, get_or-set_ne, get_or-replicate,
  ltb→lt, ◌==◌, ==_iff, ltb, lt→ltb, if◌then◌else◌, arith,
}
use libixp.Rpc.{Rpc, Mux, no_rpc, find_tag, take_tag, grow, gettag, on_rpc, release_tag, puttag}
use libixp.Rpc.Search.{
  used, used-append, used_free, used-set, IsFree, find_tag-IsFree, get_or-front, get_or-back,
  used_le, get_or_past,
}

-- `nwait` counts the tags in use, and `freetag` is an index of the table unless that is empty.
pub record IsMux (m : Mux) : Type 0 where
  pub counted : m.nwait ≡ used m.wait
  pub near : 0 < length m.wait → m.freetag < length m.wait

-- The call `q` gets the tag of the index `i`, which nobody had and which its IxpRpc now has, and all
-- others keep theirs.
pub record Tagged (q i : ℕ) (m m' : Mux) : Type 0 where
  pub free : get_or m.wait i none ≡ none
  pub tag : (get_or m'.rpcs q no_rpc).tag ≡ i + m.mintag
  pub mine : get_or m'.wait i none ≡ some q
  pub others : (j : ℕ) → j ≢ i → get_or m'.wait j none ≡ get_or m.wait j none
  pub keeps : IsMux m'

take_tag-Tagged :
    (q : ℕ) (m : Mux) (o : Option ℕ)
    → IsMux m
    → q < length m.rpcs
    → m.nwait < length m.wait
    → IsFree m.wait 0 o
    → (i : ℕ) × (m' : Mux) × (take_tag q m o ≡ some (some (i + m.mintag), m')) × Tagged q i m m'
unfolding take_tag on_rpc
take_tag-Tagged q m none h call lt full = absurd (omega (arith, h.counted, lt, full))
take_tag-Tagged q m (some i) h call lt (le, small, e) =
    let same : i - 0 ≡ i = omega arith in
    let free : get_or m.wait i none ≡ none = ap (λ j. get_or m.wait j none) (sym same) ∙ e in
    let room : i < length m.wait = omega (arith, small) in
    (
      i,
      _,
      refl,
      record {
        free = free;
        tag =
            ap (λ (r : Rpc). r.tag)
              (get_or-set_self m.rpcs q (record (get_or m.rpcs q no_rpc) { tag = i + m.mintag })
                no_rpc call);
        mine = get_or-set_self m.wait i (some q) none room;
        others = λ j ne. get_or-set_ne m.wait i j (some q) none (λ eq. ne (sym eq));
        keeps = record {
          counted = omega (arith, h.counted, used-set m.wait i q room free);
          near =
              λ some_tag. omega (arith, h.near (omega (arith, room)), length-set m.wait i (some q));
        };
      },
    )

-- The table after it has grown.
grown :
    (m : Mux)
    → IsMux m
    → IsMux (grow m)
      × ((grow m).nwait < length (grow m).wait)
      × ((j : ℕ) → get_or (grow m).wait j none ≡ get_or m.wait j none)
unfolding grow
grown m h =
    let n = length m.wait in
    let mw = if n == 0 then 1 else 2 * n in
    let more : n < mw = ground arith in
    let new = replicate (mw - n) none in
    let len : length (m.wait ++ new) ≡ mw =
      omega
        (arith, length-append m.wait new, length-replicate {A = Option ℕ} (mw - n) none, more) in
    (
      record {
        counted = omega (arith, h.counted, used-append m.wait new, used_free (mw - n));
        near = λ some_tag. omega (arith, len, more);
      },
      omega (arith, len, more, h.counted, used_le m.wait),
      λ j. elim (Bool-cases (ltb j n)) [
        | inl t ↦ get_or-front m.wait new j (ltb→lt j n t)
        | inr t ↦
            let le : n ≤ j = ground (arith, t) in
            get_or-back m.wait new j le
            ∙ get_or-replicate (mw - n) (j - n) none
            ∙ sym (get_or_past m.wait j le)
      ],
    )

-- If nwait counts the tags in use, freetag is an index of the table unless that is empty, a tag is free
-- or there may be more, and the table can grow, gettag gives a call a tag that nobody had and stores it
-- in the call's IxpRpc; every other call keeps its tag, and nwait and freetag are still right.
pub gettag-Tagged :
    (q : ℕ) (m : Mux)
    → IsMux m
    → q < length m.rpcs
    → (m.nwait < length m.wait) ⊎ (length m.wait < m.maxtag - m.mintag)
    → (i : ℕ) × (m' : Mux) × (gettag true q m ≡ some (some (i + m.mintag), m')) × Tagged q i m m'
unfolding gettag
gettag-Tagged q m h call can = elim (Bool-cases (m.nwait == length m.wait)) [
  | inl t ↦
      let may : length m.wait < m.maxtag - m.mintag = elim can [
        | inl lt ↦ absurd (ground (arith, t, lt))
        | inr lt ↦ lt
      ] in
      let (h', lt, same) = grown m h in
      let (i, m', e, g) =
        take_tag-Tagged q (grow m) (find_tag (grow m)) h' call lt
          (find_tag-IsFree (grow m) (h'.near (omega (arith, lt)))) in
      (
        i,
        m',
        rw (t, lt→ltb (length m.wait) (m.maxtag - m.mintag) may) e,
        record {
          free = sym (same i) ∙ g.free;
          tag = g.tag;
          mine = g.mine;
          others = λ j ne. g.others j ne ∙ same j;
          keeps = g.keeps;
        },
      )
  | inr t ↦
      let lt : m.nwait < length m.wait = ground (arith, t, h.counted, used_le m.wait) in
      let (i, m', e, g) =
        take_tag-Tagged q m (find_tag m) h call lt
          (find_tag-IsFree m (h.near (omega (arith, lt)))) in
      (i, m', rw t e, g)
]

-- Giving a tag back.
used_reset :
    (w : List (Option ℕ)) (i q : ℕ)
    → get_or w i none ≡ some q
    → (i < length w) × (used (set w i none) + 1 ≡ used w)
used_reset [] i q e = absurd (cc e)
used_reset (none ∷ w) zero q e = absurd (cc e)
used_reset (some p ∷ w) zero q e = (omega arith, omega arith)
used_reset (none ∷ w) (suc i) q e = let (lt, u) = used_reset w i q e in (omega (arith, lt), u)
used_reset (some p ∷ w) (suc i) q e =
    let (lt, u) = used_reset w i q e in (omega (arith, lt), omega (arith, u))

-- If nwait counts the tags in use, freetag is an index of the table unless that is empty, and a call has
-- the tag that stands in its IxpRpc, puttag returns: the tag is free, and the next to be given, every
-- other call keeps its tag, and nwait and freetag are still right.
pub puttag-Freed :
    (q i : ℕ) (m : Mux)
    → IsMux m
    → (get_or m.rpcs q no_rpc).tag ≡ i + m.mintag
    → get_or m.wait i none ≡ some q
    → (m' : Mux) × (puttag q m ≡ some m')
      × (get_or m'.wait i none ≡ none)
      × (m'.freetag ≡ i)
      × ((j : ℕ) → j ≢ i → get_or m'.wait j none ≡ get_or m.wait j none)
      × IsMux m'
unfolding puttag release_tag
puttag-Freed q i m h tag has =
    let (lt, u) = used_reset m.wait i q has in
    let at : (get_or m.rpcs q no_rpc).tag - m.mintag ≡ i = omega (arith, tag) in
    (
      record m { wait = set m.wait i none; nwait = m.nwait - 1; freetag = i },
      ap (λ k. release_tag q k m (get_or m.wait k none)) at
          ∙ ap (release_tag q i m) has
          ∙ rw ((==_iff q q).1 refl) refl,
      get_or-set_self m.wait i none none lt,
      refl,
      λ j ne. get_or-set_ne m.wait i j none none (λ eq. ne (sym eq)),
      record {
        counted = omega (arith, h.counted, u);
        near = λ some_tag. omega (arith, lt, length-set m.wait i none);
      },
    )
