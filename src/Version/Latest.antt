-- ===== src/Version/Latest.antt =====
-- `compare_latest_version` of env_common/src/logic/api_module.rs: whether a version may be published. The
-- parser and the order of versions, of the crate semver, are parameters, and so is how one prints.
use Prim.Native.Nat.{Ordering}
use infraweave.Prelude.{
  ◌≡◌, refl, sym, ap, subst, ◌∙◌, ◌⊎◌, inl, inr, false, Option, none, some, String, [], ◌∷◌, ◌==◌,
  eq_iff, arith, Bool-cases, if-eq-right, has_prefix, concat, if◌then◌else◌,
}
use infraweave.Cloud.{Fetched, fetched, fetch_error, ◌>>=◌, >>=-eq-fetched, ModuleResp}
use infraweave.Version.{SemVer, strip_build_metadata, semver_parse_without_build}

pub data ModuleType : Type 0 where
  plain_module : ModuleType
  stack : ModuleType

abbrev pub entity : ModuleType → String
entity plain_module = "Module"
entity stack = "Stack"

pub record Semver : Type 0 where
  pub parse : String → Fetched SemVer
  pub compare : SemVer → SemVer → Ordering
  pub show : SemVer → String

-- The latest version of a module and of a stack on a track
pub record Latest (S : Type 0) : Type 0 where
  pub get_latest_module_version : String → String → S → Fetched (Option ModuleResp)
  pub get_latest_stack_version : String → String → S → Fetched (Option ModuleResp)

module _ {S : Type 0} (semver : Semver) (handler : Latest S) where
  abbrev pub fetch_latest : ModuleType → String → String → S → Fetched (Option ModuleResp)
  fetch_latest plain_module name track s = handler.get_latest_module_version name track s
  fetch_latest stack name track s = handler.get_latest_stack_version name track s

  abbrev already_exists : ModuleType → SemVer → String → String
  already_exists t version track =
      concat
        (entity t ∷ " version " ∷ semver.show version ∷ " already exists in track " ∷ track ∷ [])

  abbrev is_older : ModuleType → SemVer → SemVer → String → String
  is_older t version latest track = concat (
      entity t
      ∷ " version "
      ∷ semver.show version
      ∷ " is older than the latest version "
      ∷ semver.show latest
      ∷ " in track "
      ∷ track
      ∷ [])

  -- By the order of the two versions without their builds
  abbrev pub decide :
      ModuleType → String → ModuleResp → SemVer → SemVer → Ordering → Fetched (Option ModuleResp)
  decide t track latest_module version latest Ordering.eq =
      if version.build == latest.build
      then fetch_error (already_exists t version track)
      else fetched (some latest_module)
  decide t track latest_module version latest Ordering.lt =
      fetch_error (is_older t version latest track)
  decide t track latest_module version latest Ordering.gt = fetched (some latest_module)

  abbrev pub compare_with :
      ModuleType → String → String → Option ModuleResp → Fetched (Option ModuleResp)
  compare_with t version track none = fetched none
  compare_with t version track (some latest_module) = do
    manifest_version ← semver.parse version
    latest_version ← semver.parse latest_module.version
    manifest_version_no_build ← semver_parse_without_build semver.parse version
    latest_version_no_build ← semver_parse_without_build semver.parse latest_module.version
    decide t track latest_module manifest_version latest_version
        (semver.compare manifest_version_no_build latest_version_no_build)

  abbrev pub after_fetch :
      ModuleType → String → String → Fetched (Option ModuleResp) → Fetched (Option ModuleResp)
  after_fetch t version track (fetched latest) = compare_with t version track latest
  after_fetch t version track (fetch_error e) =
      fetch_error (concat ("An error occurred: " ∷ e ∷ []))

  unfoldable pub compare_latest_version :
      ModuleType → String → String → String → S → Fetched (Option ModuleResp)
  compare_latest_version t name version track s =
      if has_prefix version "0.0.0"
      then fetched none
      else after_fetch t version track (fetch_latest t name track s)

  absurd_of_error : {A B : Type 0} (e : String) (b : B) → fetch_error e ≡ fetched b → A
  absurd_of_error e b h = cc

  -- Newer, whatever the builds, or of the same rank with another build
  abbrev pub IsNewer : SemVer → SemVer → Type 0
  IsNewer v w =
      (semver.compare (strip_build_metadata v) (strip_build_metadata w) ≡ Ordering.gt)
      ⊎ ((semver.compare (strip_build_metadata v) (strip_build_metadata w) ≡ Ordering.eq)
          × ((v.build == w.build) ≡ false))

  abbrev IsDecided : SemVer → SemVer → Ordering → Type 0
  IsDecided v w o = (o ≡ Ordering.gt) ⊎ ((o ≡ Ordering.eq) × ((v.build == w.build) ≡ false))

  decide-IsDecided :
      (t : ModuleType) (track : String) (l : ModuleResp) (o : Option ModuleResp) (v w : SemVer)
      (order : Ordering)
      → decide t track l v w order ≡ fetched o
      → IsDecided v w order
  decide-IsDecided t track l o v w Ordering.lt h = cc
  decide-IsDecided t track l o v w Ordering.gt h = inl refl
  decide-IsDecided t track l o v w Ordering.eq h = elim (Bool-cases (v.build == w.build)) [
    | inl e ↦ absurd_of_error (already_exists t v track) o (sym (rw e refl) ∙ h)
    | inr e ↦ inr (refl, e)
  ]

  compare_with-decide :
      (t : ModuleType) (version track : String) (l : ModuleResp) (v w : SemVer)
      → semver.parse version ≡ fetched v
      → semver.parse l.version ≡ fetched w
      → compare_with t version track (some l)
        ≡ decide t track l v w (semver.compare (strip_build_metadata v) (strip_build_metadata w))
  unfolding semver_parse_without_build
  compare_with-decide t version track l v w e f = rw (compare_with, e, f) refl

  -- What a latest version says of one that is let through after it
  abbrev pub IsAfter : String → ModuleResp → Type 0
  IsAfter version l =
      (v : SemVer) × (w : SemVer) × (semver.parse version ≡ fetched v)
      × (semver.parse l.version ≡ fetched w)
      × IsNewer v w

  compare_with-IsAfter :
      (t : ModuleType) (version track : String) (l : ModuleResp) (o : Option ModuleResp)
      → compare_with t version track (some l) ≡ fetched o
      → IsAfter version l
  compare_with-IsAfter t version track l o h =
      let (v, e, h1) = >>=-eq-fetched (semver.parse version) _ h in
      let (w, f, h2) = >>=-eq-fetched (semver.parse l.version) _ h1 in
      let order = semver.compare (strip_build_metadata v) (strip_build_metadata w) in
      (
        v,
        w,
        e,
        f,
        decide-IsDecided t track l o v w order
            (sym (compare_with-decide t version track l v w e f) ∙ h),
      )

  absurd_of_order : Ordering.eq ≡ Ordering.gt → ⊥
  absurd_of_order h = cc

  -- Two versions of one text are the same, so neither is newer, if the order says so of each version.
  IsNewer-same :
      (same : (v : SemVer) → semver.compare v v ≡ Ordering.eq) (v : SemVer) → ¬ IsNewer v v
  IsNewer-same same v (inl h) = absurd_of_order (sym (same (strip_build_metadata v)) ∙ h)
  IsNewer-same same v (inr (h, b)) = ground (arith, b, eq_iff v.build v.build)

  fetched_inj : (v w : SemVer) → fetched v ≡ fetched w → v ≡ w
  fetched_inj v w h = cc

  IsAfter-new :
      (same : (v : SemVer) → semver.compare v v ≡ Ordering.eq) (version : String) (l : ModuleResp)
      → IsAfter version l
      → ¬ (version ≡ l.version)
  IsAfter-new same version l (v, w, e, f, n) h =
      let equal = fetched_inj v w (sym e ∙ ap semver.parse h ∙ f) in
      IsNewer-same same w (subst (λ x. IsNewer x w) equal n)

  -- On a track that has a latest version, a version that does not start with 0.0.0 is let through only if
  -- both versions parse and it is newer than the latest, or of the same rank with another build; it is not
  -- the latest itself, if the order has each version equal to itself.
  pub compare_latest_version-IsNewer :
      (same : (v : SemVer) → semver.compare v v ≡ Ordering.eq) (t : ModuleType)
      (name version track : String) (s : S) (l : ModuleResp) (o : Option ModuleResp)
      → has_prefix version "0.0.0" ≡ false
      → fetch_latest t name track s ≡ fetched (some l)
      → compare_latest_version t name version track s ≡ fetched o
      → IsAfter version l × ¬ (version ≡ l.version)
  unfolding compare_latest_version
  compare_latest_version-IsNewer same t name version track s l o numbered latest h =
      let after = compare_with-IsAfter t version track l o (
        sym (ap (after_fetch t version track) latest)
        ∙ sym (
            if-eq-right (has_prefix version "0.0.0") (fetched none)
              (after_fetch t version track (fetch_latest t name track s)) numbered)
        ∙ h) in
      (after, IsAfter-new same version l after)
