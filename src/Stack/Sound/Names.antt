-- ===== src/Stack/Sound/Names.antt =====
-- The names of the claims of a stack in env_common/src/logic/api_stack.rs: each stands once.
use infraweave.Prelude.{
  ◌≡◌, refl, sym, ◌∙◌, true, false, none, String, List, [], ◌∷◌, eq_iff, arith, contains, inl, inr,
  Bool-cases,
}
use infraweave.Stack.Claims.{first_duplicate}

abbrev pub AreUnique : List String → Type 0
AreUnique [] = Unit
AreUnique (n ∷ ns) = (contains ns n ≡ false) × AreUnique ns

first_duplicate-rest :
    (seen : List String) (m : String) (ms : List String)
    → contains seen m ≡ false
    → first_duplicate seen (m ∷ ms) ≡ none
    → first_duplicate (m ∷ seen) ms ≡ none
first_duplicate-rest seen m ms e h = sym (rw e refl) ∙ h

first_duplicate-unseen :
    (seen names : List String) (n : String)
    → first_duplicate seen names ≡ none
    → contains seen n ≡ true
    → contains names n ≡ false
first_duplicate-unseen seen [] n h s = refl
first_duplicate-unseen seen (m ∷ ms) n h s = elim (Bool-cases (contains seen m)) [
  | inl e ↦ ground (arith, h, e)
  | inr e ↦ ground (
    arith,
    e,
    s,
    eq_iff m n,
    first_duplicate-unseen (m ∷ seen) ms n (first_duplicate-rest seen m ms e h) (ground (arith, s)),
  )
]

pub first_duplicate-AreUnique :
    (seen names : List String) → first_duplicate seen names ≡ none → AreUnique names
first_duplicate-AreUnique seen [] h = tt
first_duplicate-AreUnique seen (m ∷ ms) h = elim (Bool-cases (contains seen m)) [
  | inl e ↦ ground (arith, h, e)
  | inr e ↦ (
    first_duplicate-unseen (m ∷ seen) ms m (first_duplicate-rest seen m ms e h)
        (ground (arith, eq_iff m m)),
    first_duplicate-AreUnique (m ∷ seen) ms (first_duplicate-rest seen m ms e h),
  )
]
