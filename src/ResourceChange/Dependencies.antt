-- ===== src/ResourceChange/Dependencies.antt =====
-- `compute_dependency_change` of defs/src/resource_change.rs.
use infraweave.Prelude.{
  eq_iff, eq_refl, ◌≡◌, refl, subst, Bool, true, false, not, ◌&&◌, Option, none, some, String, List,
  [], ◌∷◌, inl, inr, arith, contains, is_empty, Bool-cases, and_true, if◌then◌else◌,
}
use infraweave.Json.{Value, array, Items, nil, cons, as_str}

pub record DependencyChange : Type 0 where
  pub added : List String
  pub removed : List String
  pub unchanged : List String

abbrev pub cons_text : Option String → List String → List String
cons_text none xs = xs
cons_text (some s) xs = s ∷ xs

-- `filter_map(|v| v.as_str())`
unfoldable pub texts : Items → List String
texts nil = []
texts (cons x xs) = cons_text (as_str x) (texts xs)

-- `and_then(|v| v.as_array())`, its texts, and no dependencies where there is none
unfoldable pub dependencies_of : Option Value → List String
unfolding texts
dependencies_of (some (array xs)) = texts xs
dependencies_of _ = []

-- `filter(|dep| set.contains(dep) == wanted)`
unfoldable pub filter_in : Bool → List String → List String → List String
filter_in wanted set [] = []
filter_in wanted set (dep ∷ deps) =
    let rest = filter_in wanted set deps in
    if contains set dep
    then (if wanted then dep ∷ rest else rest)
    else if wanted
    then rest
    else dep ∷ rest

abbrev pub some_change : DependencyChange → Option DependencyChange
some_change c =
    if is_empty c.added && is_empty c.removed && is_empty c.unchanged then none else some c

unfoldable pub compute_dependency_change : Option Value → Option Value → Option DependencyChange
unfolding dependencies_of filter_in
compute_dependency_change before_depends_on after_depends_on =
    let before_deps = dependencies_of before_depends_on in
    let after_deps = dependencies_of after_depends_on in
    if is_empty before_deps && is_empty after_deps
    then none
    else some_change (record {
      added = filter_in false before_deps after_deps;
      removed = filter_in false after_deps before_deps;
      unchanged = filter_in true before_deps after_deps;
    })

contains-filter_in :
    (wanted : Bool) (set deps : List String) (d : String)
    → contains (filter_in wanted set deps) d
      ≡ (contains deps d && (if wanted then contains set d else not (contains set d)))
unfolding filter_in
contains-filter_in wanted set [] d = refl
contains-filter_in true set (x ∷ deps) d =
    ground (arith, contains-filter_in true set deps d, eq_iff x d)
contains-filter_in false set (x ∷ deps) d =
    ground (arith, contains-filter_in false set deps d, eq_iff x d)

-- What a dependency change must say of two lists of dependencies.
pub record IsChangeBetween (before after : List String) (c : DependencyChange) : Type 0 where
  pub added : (d : String) → contains c.added d ≡ (contains after d && not (contains before d))
  pub removed : (d : String) → contains c.removed d ≡ (contains before d && not (contains after d))
  pub unchanged : (d : String) → contains c.unchanged d ≡ (contains after d && contains before d)

abbrev change_between : List String → List String → DependencyChange
change_between before after = record {
  added = filter_in false before after;
  removed = filter_in false after before;
  unchanged = filter_in true before after;
}

change_between-lem :
    (before after : List String) → IsChangeBetween before after (change_between before after)
change_between-lem before after = record {
  added = λ d. contains-filter_in false before after d;
  removed = λ d. contains-filter_in false after before d;
  unchanged = λ d. contains-filter_in true before after d;
}

-- The recorded dependency change sorts every dependency, and only dependencies, into the added,
-- the removed and the unchanged ones.
pub compute_dependency_change-IsChangeBetween :
    (before after : Option Value) (c : DependencyChange)
    → compute_dependency_change before after ≡ some c
    → IsChangeBetween (dependencies_of before) (dependencies_of after) c
unfolding compute_dependency_change
compute_dependency_change-IsChangeBetween before after c h =
    let e : change_between (dependencies_of before) (dependencies_of after) ≡ c = ground arith in
    subst (IsChangeBetween (dependencies_of before) (dependencies_of after)) e
      (change_between-lem (dependencies_of before) (dependencies_of after))

no_member : (xs : List String) → ((d : String) → contains xs d ≡ false) → xs ≡ []
no_member [] h = refl
no_member (x ∷ xs) h = ground (arith, h x, eq_refl x)

empty_member : (xs : List String) (d : String) → is_empty xs ≡ true → contains xs d ≡ false
empty_member [] d h = refl
empty_member (x ∷ xs) d h = cc

no_change :
    (b a : List String)
    → is_empty (change_between b a).added ≡ true
    → is_empty (change_between b a).removed ≡ true
    → is_empty (change_between b a).unchanged ≡ true
    → (b ≡ []) × (a ≡ [])
no_change b a added removed unchanged = (
  no_member b λ d. ground (
    arith,
    contains-filter_in false a b d,
    contains-filter_in true b a d,
    empty_member (filter_in false a b) d removed,
    empty_member (filter_in true b a) d unchanged,
  ),
  no_member a λ d. ground (
    arith,
    contains-filter_in false b a d,
    contains-filter_in true b a d,
    empty_member (filter_in false b a) d added,
    empty_member (filter_in true b a) d unchanged,
  ),
)

empty-eq : (xs : List String) → is_empty xs ≡ true → xs ≡ []
empty-eq [] h = refl
empty-eq (x ∷ xs) h = cc

no_record :
    (b a : List String)
    → (if is_empty b && is_empty a then none else some_change (change_between b a)) ≡ none
    → (b ≡ []) × (a ≡ [])
no_record b a h = elim (Bool-cases (is_empty b && is_empty a)) [
  | inl empty ↦ let (eb, ea) = and_true (is_empty b) _ empty in (empty-eq b eb, empty-eq a ea)
  | inr full ↦
      let e : (is_empty (change_between b a).added
            && is_empty (change_between b a).removed
            && is_empty (change_between b a).unchanged)
          ≡ true =
        ground arith in
      let (two, unchanged) =
        and_true (is_empty (change_between b a).added && is_empty (change_between b a).removed) _
          e in
      let (added, removed) = and_true (is_empty (change_between b a).added) _ two in
      no_change b a added removed unchanged
]

-- Nothing is recorded only where neither side has a dependency.
pub compute_dependency_change-none :
    (before after : Option Value)
    → compute_dependency_change before after ≡ none
    → (dependencies_of before ≡ []) × (dependencies_of after ≡ [])
unfolding compute_dependency_change
compute_dependency_change-none before after h =
    no_record (dependencies_of before) (dependencies_of after) h
