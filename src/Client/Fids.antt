-- ===== src/Client/Fids.antt =====
-- The numbers of a client's fids (getfid and putfid in lib/libixp/client.c).
use libixp.Prelude.{
  occurrences, ℕ, ◌+◌, ◌-◌, ◌%◌, ◌^◌, ◌≤◌, ◌<◌, ◌≡◌, refl, List, [], ◌∷◌, map, ◌==◌, ==_iff,
  Bool-cases, inl, inr, ◌⊎◌, true, arith,
}
use libixp.Client.{CFid, Client, take_fid, fresh_fid, getfid, putfid}

abbrev pub numbers : List CFid → List ℕ
numbers fs = map (λ f. f.fid) fs

-- The numbers in use and those of the free fids are all different, behind RootFid, and at most the
-- last number given.
pub record Spread (live free : List ℕ) (last : ℕ) : Type 0 where
  pub once : (x : ℕ) → occurrences x live + occurrences x free ≤ 1
  pub low : (x : ℕ) → x ≤ 1 → occurrences x live + occurrences x free ≡ 0
  pub high : (x : ℕ) → last < x → occurrences x live + occurrences x free ≡ 0
  pub root : 1 ≤ last

Spread-new :
    (live free : List ℕ) (last : ℕ)
    → Spread live free last
    → last + 1 < 2 ^ 32
    → Spread ((last + 1) % 2 ^ 32 ∷ live) free ((last + 1) % 2 ^ 32)
Spread-new live free last h lt =
    let e : (last + 1) % 2 ^ 32 ≡ last + 1 = omega (arith, lt) in
    rw e (record {
      once = λ x. ground (arith, h.once x, h.high x);
      low = λ x le. ground (arith, h.low x le, h.root, le);
      high = λ x gt. ground (arith, h.high x (omega (arith, gt)), gt);
      root = omega arith;
    })

Spread-take :
    (x : ℕ) (live free : List ℕ) (last : ℕ)
    → Spread live (x ∷ free) last
    → Spread (x ∷ live) free last
Spread-take y live free last h = record {
  once = λ x. ground (arith, h.once x);
  low = λ x le. ground (arith, h.low x le);
  high = λ x gt. ground (arith, h.high x gt);
  root = h.root;
}

Spread-put :
    (x : ℕ) (live free : List ℕ) (last : ℕ)
    → Spread (x ∷ live) free last
    → Spread live (x ∷ free) last
Spread-put y live free last h = record {
  once = λ x. ground (arith, h.once x);
  low = λ x le. ground (arith, h.low x le);
  high = λ x gt. ground (arith, h.high x gt);
  root = h.root;
}

Spread-last :
    (y : ℕ) (live free : List ℕ) (last : ℕ)
    → y ≡ last
    → Spread (y ∷ live) free last
    → Spread live free (last - 1)
Spread-last y live free last e h =
    let two : 2 ≤ last = ground (arith, e, h.low y, h.root) in
    record {
      once = λ x. ground (arith, h.once x);
      low = λ x le. ground (arith, h.low x le);
      high = λ x gt. ground (arith, e, h.high x, h.once x, gt);
      root = omega (arith, two);
    }

not_used :
    (x : ℕ) (live free : List ℕ) (last : ℕ) → Spread (x ∷ live) free last → occurrences x live ≡ 0
not_used x live free last h = ground (arith, h.once x)

-- A client whose fids in use have the numbers `live`.
abbrev pub IsClient : {W : Type 0} → List ℕ → Client W → Type 0
IsClient live c = Spread live (numbers c.freefid) c.lastfid

module _ {W : Type 0} where
  take_fid-IsClient :
      (live : List ℕ) (c : Client W) (fs : List CFid)
      → fs ≡ c.freefid
      → Spread live (numbers fs) c.lastfid
      → c.lastfid + 1 < 2 ^ 32
      → IsClient ((take_fid c fs).0.fid ∷ live) (take_fid c fs).1
  unfolding take_fid fresh_fid
  take_fid-IsClient live c [] e h lt = rw⁻¹ e (Spread-new live [] c.lastfid h lt)
  take_fid-IsClient live c (f ∷ fs) e h lt = Spread-take f.fid live (numbers fs) c.lastfid h

  -- If the fids in use and the free ones have different numbers behind RootFid, at most the last one
  -- given, and another can be given without an overflow, getfid gives a fid whose number is none of
  -- those in use, and it is so with the new fid, too.
  pub getfid-IsClient :
      (live : List ℕ) (c : Client W)
      → IsClient live c
      → c.lastfid + 1 < 2 ^ 32
      → IsClient ((getfid c).0.fid ∷ live) (getfid c).1 × (occurrences (getfid c).0.fid live ≡ 0)
  unfolding getfid
  getfid-IsClient live c h lt =
      let new = take_fid-IsClient live c c.freefid refl h lt in
      (new, not_used (getfid c).0.fid live _ _ new)

  -- If putfid takes a fid in use back, its number can be given again: it stands once among the free
  -- ones, or is the next to be given. The other fids in use and the free ones have different numbers
  -- behind RootFid, at most the last one given.
  pub putfid-IsClient :
      (live : List ℕ) (f : CFid) (c : Client W)
      → IsClient (f.fid ∷ live) c
      → IsClient live (putfid f c)
        × ((occurrences f.fid (numbers (putfid f c).freefid) ≡ 1)
            ⊎ (f.fid ≡ (putfid f c).lastfid + 1))
  unfolding putfid
  putfid-IsClient live f c h = elim (Bool-cases (f.fid == c.lastfid)) [
    | inl t ↦
        let e = (==_iff f.fid c.lastfid).0 t in
        let last : f.fid ≡ (c.lastfid - 1) + 1 = omega (arith, e, h.root) in
        rw t (Spread-last f.fid live (numbers c.freefid) c.lastfid e h, inr last)
    | inr t ↦
        let self : (f.fid == f.fid) ≡ true = (==_iff f.fid f.fid).1 refl in
        let here : occurrences f.fid (numbers (f ∷ c.freefid)) ≡ 1 =
          ground (arith, h.once f.fid, self) in
        rw t (Spread-put f.fid live (numbers c.freefid) c.lastfid h, inl here)
  ]
