-- ===== src/Wire/Unpacks.antt =====
-- What a routine reads when the bytes at the position are those of a packed value.
pub mod Convert
pub mod Arrays
pub mod Fcall
use mathlib.Core.Path.{subst}
use libixp.Prelude.{
  ℕ, ◌+◌, ◌≤◌, ◌≡◌, refl, sym, ap, ◌∙◌, List, [], ◌++◌, some, arith, length, drop, length-append,
  drop-append_length, drop-drop, append_assoc, ge→ltb,
}
use libixp.Wire.Msg.{
  Mode, msg_unpack, Msg, M, pure, ◌>>=◌, ◌>>◌, >>=_some, IsValid, with_mode, with_mode_lem,
  when_available, unless_past, skip,
}
use libixp.Wire.Access.{available-eq-true, skip_room}

-- With `bs` in front, all of it before the end, the routine returns `a` and stands behind `bs`.
pub record Unpacks {A : Type 0} (x : M A) (bs : List ℕ) (a : A) : Type 0 where
  pub at :
      (m : Msg) (rest : List ℕ)
      → m.mode ≡ msg_unpack
      → IsValid m
      → drop m.pos m.buf ≡ bs ++ rest
      → m.pos + length bs ≤ m.end
      → x m ≡ some (a, record m { pos = m.pos + length bs })

pub Unpacks-pure : {A : Type 0} (a : A) → Unpacks (pure a) [] a
unfolding pure
Unpacks-pure a = record {
  at = λ m rest mode v e h.
      let p : m.pos ≡ m.pos + 0 = omega arith in ap (λ k. some (a, record m { pos = k })) p;
}

-- A routine behind the bytes `bs`.
pub Unpacks-after :
    {A : Type 0} {y : M A} (bs : List ℕ) {cs : List ℕ} {b : A}
    → Unpacks y cs b
    → (m : Msg) (rest : List ℕ) → m.mode ≡ msg_unpack
    → IsValid m
    → drop m.pos m.buf ≡ bs ++ (cs ++ rest)
    → m.pos + length (bs ++ cs) ≤ m.end
    → y (record m { pos = m.pos + length bs })
      ≡ some (b, record m { pos = m.pos + length (bs ++ cs) })
Unpacks-after bs {cs} {b} hy m rest mode v e h =
    let n = length bs in
    let room : m.pos + n + length cs ≤ m.end = omega (arith, length-append bs cs) in
    let behind : drop (m.pos + n) m.buf ≡ cs ++ rest =
      sym (drop-drop m.pos n (m.pos + n) m.buf refl)
      ∙ ap (drop n) e
      ∙ drop-append_length bs (cs ++ rest) in
    let v1 : IsValid (record m { pos = m.pos + n }) = record {
      width = v.width;
      fits = v.fits;
      bounded = v.bounded;
      near = omega arith;
    } in
    let q : m.pos + n + length cs ≡ m.pos + length (bs ++ cs) =
      omega (arith, length-append bs cs) in
    hy.at (record m { pos = m.pos + n }) rest mode v1 behind room
    ∙ ap (λ j. some (b, record m { pos = j })) q

pub Unpacks-bind :
    {A B : Type 0} (x : M A) (k : A → M B) {bs cs : List ℕ} {a : A} {b : B}
    → Unpacks x bs a
    → Unpacks (k a) cs b
    → Unpacks (x >>= k) (bs ++ cs) b
Unpacks-bind x k {bs} {cs} hx hk = record {
  at = λ m rest mode v e h.
      let whole : drop m.pos m.buf ≡ bs ++ (cs ++ rest) = e ∙ append_assoc bs cs rest in
      >>=_some x k (hx.at m (cs ++ rest) mode v whole (omega (arith, length-append bs cs)))
      ∙ Unpacks-after bs hk m rest mode v whole h;
}

-- The two rules under one name in proof search.
pub ruleset unpacks_rules = (Unpacks-pure, Unpacks-bind)

pub Unpacks-congr :
    {A : Type 0} {x : M A} {bs cs : List ℕ} {a : A} → bs ≡ cs → Unpacks x bs a → Unpacks x cs a
Unpacks-congr {x} {a} e h = subst (λ l. Unpacks x l a) e h

pub Unpacks-with_mode :
    {A : Type 0} (f : Mode → M A) {bs : List ℕ} {a : A}
    → Unpacks (f msg_unpack) bs a
    → Unpacks (with_mode f) bs a
Unpacks-with_mode f h = record {
  at = λ m rest mode v e r. with_mode_lem f mode ∙ h.at m rest mode v e r;
}

pub Unpacks-unless_past :
    {A : Type 0} (z : A) {x : M A} {bs : List ℕ} {a : A}
    → Unpacks x bs a
    → Unpacks (unless_past z x) bs a
unfolding unless_past
Unpacks-unless_past z h = record {
  at = λ m rest mode v e r.
      let p : m.pos ≤ m.end = omega arith in rw (ge→ltb m.end m.pos p) (h.at m rest mode v e r);
}

-- Bytes read under `available` and then skipped, as ixp_puint and ixp_pdata do.
pub Unpacks-block :
    {A : Type 0} (n : ℕ) (x y : M A) (bs : List ℕ) (a : A)
    → n ≡ length bs
    → ((m : Msg) (rest : List ℕ)
        → m.mode ≡ msg_unpack
        → IsValid m
        → drop m.pos m.buf ≡ bs ++ rest
        → m.pos + n ≤ m.end
        → x m ≡ some (a, m))
    → Unpacks (when_available n x y >>= λ v. skip n >> pure v) bs a
unfolding when_available pure
Unpacks-block n x y bs a len reads = record {
  at = λ m rest mode v e r.
      let room : m.pos + n ≤ m.end = omega arith in
      let q : m.pos + n ≡ m.pos + length bs = omega arith in
      >>=_some (when_available n x y) _
        (rw (available-eq-true m n v room) (reads m rest mode v e room))
      ∙ >>=_some (skip n) _ (skip_room m n v room)
      ∙ ap (λ k. some (a, record m { pos = k })) q;
}
