-- ===== src/FileIds/Cloned.antt =====
-- ixp_srv_clonefiles of lib/libixp/srv_util.c.
use libixp.Prelude.{
  ℕ, ◌+◌, ◌^◌, ◌≤◌, ◌<◌, ◌≡◌, refl, ap, ◌∙◌, List, [], ◌∷◌, ◌++◌, Option, none, some, arith, length,
  occurrences, occurrences-append, inl,
}
use libixp.FileIds.{
  Pool, file_at, store_file, ref_all, with_file, clone_named, clone_to, ixp_srv_getfile,
  ixp_srv_clonefiles,
}
use libixp.FileIds.Counts.{
  Chain, Kept, Chain-kept, Chain-store_file, IsPool, file_at-store_file, file_at-store_file_ne,
  Holding-store_file, owned-file,
}
use libixp.FileIds.Got.{IsGot, getfile-IsGot}
use libixp.FileIds.Released.{IsRef, ref_all-IsRef, linked-Chain, not_free, IsPool-same}

-- A new file id, with the `next` of the old one, and a reference more to each one behind it.
abbrev pub IsClone : Pool → List ℕ → List ℕ → Option (ℕ × Pool) → Type 0
IsClone s owned xs none = ⊥
IsClone s owned xs (some (r, s')) =
    IsPool s' (r ∷ xs ++ owned)
    × (occurrences r owned ≡ 0)
    × Chain s' (file_at s' r).next xs
    × Kept owned s s'

module _ (s : Pool) (x : ℕ) (xs owned : List ℕ) (fuel : ℕ) (name : List ℕ) where
  refs-IsClone :
      (s2 : Pool) (r : ℕ) (o : Option Pool)
      → occurrences r owned ≡ 0
      → Kept owned s s2
      → ((y : ℕ) → 0 < occurrences y xs → 0 < occurrences y owned)
      → Chain s2 (file_at s2 r).next xs
      → IsRef s2 xs (r ∷ owned) o
      → IsClone s owned xs (with_file r o)
  refs-IsClone s2 r none z k i c h = h
  refs-IsClone s2 r (some t) z k i c (h, kt) = (
    IsPool-same t (xs ++ r ∷ owned) (r ∷ xs ++ owned)
        (λ y. ground (arith, occurrences-append y xs (r ∷ owned), occurrences-append y xs owned)) h,
    z,
    rw (kt r (ground arith)) (Chain-kept s2 t _ xs (λ y lt. kt y (ground (arith, i y lt))) c),
    λ y lt. kt y (ground (arith, lt)) ∙ k y lt,
  )

  clone_to-IsClone :
      (o : Option (ℕ × Pool))
      → 0 < occurrences x owned
      → Chain s (file_at s x).next xs
      → ((y : ℕ) → 0 < occurrences y xs → 0 < occurrences y owned)
      → ((y : ℕ) → occurrences y xs + occurrences y owned + 1 < 2 ^ 32)
      → length xs ≤ fuel
      → (file_at s x).name ≡ some name
      → IsGot s owned o
      → IsClone s owned xs (clone_to fuel x o)
  unfolding clone_to clone_named
  clone_to-IsClone none own c i b le named h = h
  clone_to-IsClone (some (r, t)) own c i b le named (h, z, n, k) =
      let f = record (file_at t x) { nref = 1; name = some name } in
      let named' : (file_at t x).name ≡ some name = ap (λ j. j.name) (k x own) ∙ named in
      let lt = owned-file t (r ∷ owned) [] h r (ground arith) in
      let h2 : IsPool (store_file r f t) (r ∷ owned) =
        Holding-store_file t (r ∷ owned) [] h r f (r ∷ owned) [] lt
          (not_free t (r ∷ owned) h r (ground arith)) (ground (arith, z)) (ground (arith, z))
          (λ y ne. (refl, refl)) (inl (ground arith, refl)) in
      let c' : Chain t (file_at t x).next xs =
        rw (k x own) (Chain-kept s t _ xs (λ y lt. ap (λ j. j.next) (k y (i y lt))) c) in
      let no : occurrences r xs ≡ 0 = ground (arith, i r, z) in
      let c2 : Chain (store_file r f t) (file_at t x).next xs = Chain-store_file t r f _ xs no c' in
      let kept : Kept owned s (store_file r f t) = λ y g.
        ap (λ j. j.next) (file_at-store_file_ne t r f y (λ e. ground (arith, z, g, e)))
        ∙ ap (λ j. j.next) (k y g) in
      rw (named', linked-Chain xs (store_file r f t) (file_at t x).next fuel c2 le)
        (refs-IsClone (store_file r f t) r (ref_all xs (store_file r f t)) z kept i
          (rw (file_at-store_file t r f lt) c2)
          (ref_all-IsRef xs (store_file r f t) (r ∷ owned) h2 (λ y g. ground (arith, i y g))
            (λ y. ground (arith, b y))))

  -- On a pool in which the counts are right, with a reference to a file id that has a name, and to each of those behind
  -- it, whose list the fuel is enough for, and none with so many references that one more overflows,
  -- clonefiles returns. It gives a file id to which there was no reference, with the same list behind
  -- it; the counts are right with a reference to it and one more to each file id of the list.
  pub clonefiles-IsClone :
      IsPool s owned
      → 0 < occurrences x owned
      → Chain s (file_at s x).next xs
      → ((y : ℕ) → 0 < occurrences y xs → 0 < occurrences y owned)
      → ((y : ℕ) → occurrences y xs + occurrences y owned + 1 < 2 ^ 32)
      → length xs ≤ fuel
      → (file_at s x).name ≡ some name
      → IsClone s owned xs (ixp_srv_clonefiles fuel x s)
  unfolding ixp_srv_clonefiles
  clonefiles-IsClone h own c i b le named =
      clone_to-IsClone (ixp_srv_getfile s) own c i b le named (getfile-IsGot s owned h)
