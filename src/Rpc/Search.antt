-- ===== src/Rpc/Search.antt =====
-- The search for a free tag (lib/libixp/rpc.c).
use mathlib.Core.Path.{subst}
use libixp.Prelude.{
  ℕ, zero, suc, ◌+◌, ◌-◌, ◌≤◌, ◌<◌, ◌≡◌, ◌≢◌, refl, sym, ap, ◌∙◌, List, [], ◌∷◌, ◌++◌, Option, none,
  some, get_or, get_elem?, set, take, drop, length, replicate, length-take, length-append,
  take-append-drop, arith,
}
use libixp.Rpc.{Mux, free_from, or_before, from_freetag, find_tag}

-- How many tags are in use.
abbrev pub used : List (Option ℕ) → ℕ
used [] = 0
used (none ∷ w) = used w
used (some q ∷ w) = suc (used w)

pub used-append : (v w : List (Option ℕ)) → used (v ++ w) ≡ used v + used w
used-append [] w = omega arith
used-append (none ∷ v) w = used-append v w
used-append (some q ∷ v) w = omega (arith, used-append v w)

pub used_free : (n : ℕ) → used (replicate n none) ≡ 0
used_free zero = refl
used_free (suc n) = used_free n

-- Setting a free tag.
pub used-set :
    (w : List (Option ℕ)) (i q : ℕ)
    → i < length w
    → get_or w i none ≡ none
    → used (set w i (some q)) ≡ used w + 1
used-set [] i q lt e = absurd (omega (arith, lt))
used-set (none ∷ w) zero q lt e = omega arith
used-set (some p ∷ w) zero q lt e = absurd (cc e)
used-set (none ∷ w) (suc i) q lt e = used-set w i q (omega (arith, lt)) e
used-set (some p ∷ w) (suc i) q lt e = omega (arith, used-set w i q (omega (arith, lt)) e)

-- A free tag of the list, or none if all are in use.
abbrev pub IsFree : List (Option ℕ) → ℕ → Option ℕ → Type 0
IsFree w off none = used w ≡ length w
IsFree w off (some i) = (off ≤ i) × (i - off < length w) × (get_or w (i - off) none ≡ none)

IsFree-later :
    (q off : ℕ) (w : List (Option ℕ)) (o : Option ℕ)
    → IsFree w (suc off) o
    → IsFree (some q ∷ w) off o
IsFree-later q off w none h = omega (arith, h)
IsFree-later q off w (some i) (le, lt, e) =
    let step : i - off ≡ suc (i - suc off) = omega (arith, le) in
    (omega (arith, le), omega (arith, lt, le), rw step e)

free_from-IsFree : (w : List (Option ℕ)) (off : ℕ) → IsFree w off (free_from off w)
unfolding free_from
free_from-IsFree [] off = refl
free_from-IsFree (none ∷ w) off =
    let z : off - off ≡ 0 = omega arith in (omega arith, omega arith, rw z refl)
free_from-IsFree (some q ∷ w) off =
    IsFree-later q off w (free_from (suc off) w) (free_from-IsFree w (suc off))

pub get_or-front :
    (v w : List (Option ℕ)) (i : ℕ) → i < length v → get_or (v ++ w) i none ≡ get_or v i none
get_or-front [] w i lt = absurd (omega (arith, lt))
get_or-front (x ∷ v) w zero lt = refl
get_or-front (x ∷ v) w (suc i) lt = get_or-front v w i (omega (arith, lt))

pub get_or-back :
    (v w : List (Option ℕ)) (i : ℕ)
    → length v ≤ i
    → get_or (v ++ w) i none ≡ get_or w (i - length v) none
get_or-back [] w i le = let z : i ≡ i - 0 = omega arith in ap (λ j. get_or w j none) z
get_or-back (x ∷ v) w zero le = absurd (omega (arith, le))
get_or-back (x ∷ v) w (suc i) le =
    get_or-back v w i (omega (arith, le)) ∙ ap (λ j. get_or w j none) (omega (arith, le))

-- The search before `freetag` when all behind is in use.
before-IsFree :
    (v w : List (Option ℕ)) (o : Option ℕ) → used w ≡ length w → IsFree v 0 o → IsFree (v ++ w) 0 o
before-IsFree v w none full h = omega (arith, used-append v w, length-append v w, full, h)
before-IsFree v w (some i) full (le, lt, e) =
    let same : i - 0 ≡ i = omega arith in
    (omega arith, omega (arith, lt, length-append v w), get_or-front v w (i - 0) lt ∙ e)

search-IsFree :
    (v w : List (Option ℕ)) (o : Option ℕ)
    → IsFree w (length v) o
    → IsFree (v ++ w) 0 (or_before v o)
search-IsFree v w none h = before-IsFree v w (free_from 0 v) h (free_from-IsFree v 0)
search-IsFree v w (some i) (le, lt, e) =
    let same : i - 0 ≡ i = omega arith in
    (
      omega arith,
      omega (arith, le, lt, length-append v w),
      ap (λ j. get_or (v ++ w) j none) same ∙ get_or-back v w i le ∙ e,
    )

get_or_at :
    (w : List (Option ℕ)) (i : ℕ) (o : Option ℕ) → get_elem? w i ≡ some o → get_or w i none ≡ o
get_or_at [] i o e = absurd (cc e)
get_or_at (x ∷ w) zero o e = cc e
get_or_at (x ∷ w) (suc i) o e = get_or_at w i o e

get_elem-none : (w : List (Option ℕ)) (i : ℕ) → i < length w → get_elem? w i ≢ none
get_elem-none [] i lt e = absurd (omega (arith, lt))
get_elem-none (x ∷ w) zero lt e = absurd (cc e)
get_elem-none (x ∷ w) (suc i) lt e = get_elem-none w i (omega (arith, lt)) e

loops-IsFree :
    (m : Mux)
    → m.freetag ≤ length m.wait
    → IsFree m.wait 0
        (or_before (take m.freetag m.wait) (free_from m.freetag (drop m.freetag m.wait)))
loops-IsFree m le =
    let v = take m.freetag m.wait in
    let w = drop m.freetag m.wait in
    let at : length v ≡ m.freetag = ground (arith, length-take m.freetag m.wait, le) in
    subst (λ l. IsFree l 0 (or_before v (free_from m.freetag w)))
      (take-append-drop m.freetag m.wait)
      (search-IsFree v w (free_from m.freetag w)
        (subst (λ k. IsFree w k (free_from m.freetag w)) (sym at) (free_from-IsFree w m.freetag)))

from_freetag-IsFree :
    (m : Mux) (o : Option (Option ℕ))
    → m.freetag < length m.wait
    → get_elem? m.wait m.freetag ≡ o
    → IsFree m.wait 0 (from_freetag m.wait m.freetag o)
unfolding from_freetag
from_freetag-IsFree m none lt e = absurd (get_elem-none m.wait m.freetag lt e)
from_freetag-IsFree m (some none) lt e =
    let same : m.freetag - 0 ≡ m.freetag = omega arith in
    (omega arith, omega (arith, lt), rw (same, get_or_at m.wait m.freetag none e) refl)
from_freetag-IsFree m (some (some q)) lt e = loops-IsFree m (omega (arith, lt))

-- The search of gettag finds a free tag of the table, unless all are in use.
pub find_tag-IsFree : (m : Mux) → m.freetag < length m.wait → IsFree m.wait 0 (find_tag m)
unfolding find_tag
find_tag-IsFree m lt = from_freetag-IsFree m (get_elem? m.wait m.freetag) lt refl

pub used_le : (w : List (Option ℕ)) → used w ≤ length w
used_le [] = omega arith
used_le (none ∷ w) = omega (arith, used_le w)
used_le (some q ∷ w) = omega (arith, used_le w)

pub get_or_past : (w : List (Option ℕ)) (j : ℕ) → length w ≤ j → get_or w j none ≡ none
get_or_past [] j le = refl
get_or_past (x ∷ w) zero le = absurd (omega (arith, le))
get_or_past (x ∷ w) (suc j) le = get_or_past w j (omega (arith, le))
