-- ===== src/Version.antt =====
-- utils/src/versioning.rs and `ensure_track_matches_version` of env_common/src/logic/utils.rs. The
-- parser of versions, of the crate semver, is a parameter that gives the parts as texts.
pub mod Latest
mod Tests
use infraweave.Prelude.{
  ℕ, ◌-◌, ◌≡◌, refl, Bool, true, false, not, ◌&&◌, ◌||◌, String, List, [], ◌∷◌, ◌==◌, if◌then◌else◌,
  concat, arith, eq_iff, eq_refl, subst, sym, Bool-cases, inl, inr,
}
use infraweave.Cloud.{Fetched, fetched, fetch_error}

pub record SemVer : Type 0 where
  pub major : ℕ
  pub minor : ℕ
  pub patch : ℕ
  pub pre : String
  pub build : String

-- The errors of env_common/src/errors that a track gives
pub data ModuleError : Type 0 where
  invalid_stable_version : ModuleError
  invalid_track : String → ModuleError
  invalid_track_prerelease_version : String → String → ModuleError

pub data Checked : Type 0 where
  accepted : Checked
  rejected : ModuleError → Checked
  panicked : Checked

abbrev map_fetched : {A B : Type 0} → (A → B) → Fetched A → Fetched B
map_fetched f (fetched a) = fetched (f a)
map_fetched f (fetch_error e) = fetch_error e

-- `format!("{:0width$}", n)` is `pad width n`.
unfoldable pub reconstructed : (ℕ → ℕ → String) → ℕ → SemVer → String
reconstructed pad pad_length version = concat (
    pad pad_length version.major
    ∷ "."
    ∷ pad pad_length version.minor
    ∷ "."
    ∷ pad pad_length version.patch
    ∷ (if version.pre == "" then "" else concat ("-" ∷ version.pre ∷ []))
    ∷ (if version.build == "" then "" else concat ("+" ∷ version.build ∷ []))
    ∷ [])

abbrev pub track_of : SemVer → String
track_of version = if version.pre == "" then "stable" else version.pre

abbrev pub strip_build_metadata : SemVer → SemVer
strip_build_metadata version = record version { build = "" }

-- The order of the tests on a version that is parsed
abbrev pub check_track : String → Fetched SemVer → Checked
check_track track (fetch_error e) = panicked
check_track track (fetched v) =
    if v.pre == track
    then if track == "dev" || track == "alpha" || track == "beta" || track == "rc"
      then accepted
      else if track == "stable"
      then rejected invalid_stable_version
      else rejected (invalid_track track)
    else if v.pre == "" && track == "stable"
    then accepted
    else rejected (invalid_track_prerelease_version track v.pre)

module _ (parse : String → Fetched SemVer) where
  unfoldable pub zero_pad_semver : (ℕ → ℕ → String) → String → ℕ → Fetched String
  unfolding reconstructed
  zero_pad_semver pad ver_str pad_length =
      map_fetched (reconstructed pad pad_length) (parse ver_str)

  unfoldable pub get_version_track : String → Fetched String
  get_version_track ver_str = map_fetched track_of (parse ver_str)

  unfoldable pub semver_parse_without_build : String → Fetched SemVer
  semver_parse_without_build ver_str = map_fetched strip_build_metadata (parse ver_str)

  unfoldable pub ensure_track_matches_version : String → String → Checked
  ensure_track_matches_version track version = check_track track (parse version)

abbrev pub is_accepted : Checked → Bool
is_accepted accepted = true
is_accepted (rejected e) = false
is_accepted panicked = false

abbrev pub is_fetched : Fetched String → String → Bool
is_fetched (fetched a) b = a == b
is_fetched (fetch_error e) b = false

abbrev known_track : String → Bool
known_track track =
    track == "dev" || track == "alpha" || track == "beta" || track == "rc" || track == "stable"

abbrev names_stable : Fetched SemVer → Bool
names_stable (fetched v) = v.pre == "stable"
names_stable (fetch_error e) = false

-- Both sides of the theorem below, of a track and a pre-release
abbrev Agrees : String → String → Type 0
Agrees track pre =
    is_accepted (
      check_track track
        (fetched (record { major = 0; minor = 0; patch = 0; pre = pre; build = "" })))
    ≡ (known_track track && (if pre == "" then "stable" else pre) == track && not (pre == "stable"))

at_word : (P : String → Type 0) (p w : String) → p == w ≡ true → P w → P p
at_word P p w e h = subst P (sym ((eq_iff p w).0 e)) h

same_track : (p : String) → Agrees p p
same_track p = elim (Bool-cases (p == "")) [
  | inl e ↦ at_word (λ q. Agrees q q) p "" e refl
  | inr e ↦ elim (Bool-cases (p == "stable")) [
    | inl f ↦ at_word (λ q. Agrees q q) p "stable" f refl
    | inr f ↦ rw (e, f) (ground (arith, eq_iff p p))
  ]
]

other_track : (track pre : String) → (pre == track) ≡ false → Agrees track pre
other_track track pre d = elim (Bool-cases (pre == "")) [
  | inl e ↦
      at_word (λ q. (q == track) ≡ false → Agrees track q) pre "" e
        (λ n. rw n (ground (arith, eq_iff track "stable", eq_iff "stable" track))) d
  | inr e ↦ rw (d, e) (ground arith)
]

check_track-is_accepted :
    (track : String) (o : Fetched SemVer)
    → is_accepted (check_track track o)
      ≡ (known_track track && is_fetched (map_fetched track_of o) track && not (names_stable o))
check_track-is_accepted track (fetch_error e) = ground arith
check_track-is_accepted track (fetched v) = elim (Bool-cases (v.pre == track)) [
  | inl e ↦ subst (λ t. Agrees t v.pre) ((eq_iff _ _).0 e) (same_track v.pre)
  | inr e ↦ other_track track v.pre e
]

module _ (parse : String → Fetched SemVer) where
  -- A version is accepted on a track exactly where the track is one of the five and is the track of the
  -- version, which does not spell the stable track as a pre-release.
  pub ensure_track_matches_version-is_accepted :
      (track version : String)
      → is_accepted (ensure_track_matches_version parse track version) ≡ (
          known_track track
          && is_fetched (get_version_track parse version) track
          && not (names_stable (parse version)))
  unfolding ensure_track_matches_version get_version_track
  ensure_track_matches_version-is_accepted track version =
      check_track-is_accepted track (parse version)
