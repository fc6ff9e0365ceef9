-- ===== src/Version/Tests.antt =====
-- Tracks and versions of utils/src/versioning.rs and env_common/src/logic/utils.rs.
use infraweave.Prelude.{
  ◌≡◌, refl, false, Option, some, none, String, [], ◌==◌, if◌then◌else◌, arith,
}
use Prim.Native.Nat.{Ordering, compare}
use infraweave.Cloud.{Fetched, fetched, fetch_error, ModuleResp}
use infraweave.Version.Latest.{
  plain_module, Semver, Latest, compare_latest_version, IsAfter, compare_latest_version-IsNewer,
}
use infraweave.Version.{
  SemVer, ensure_track_matches_version, semver_parse_without_build, rejected,
  invalid_stable_version, accepted,
}

-- Versions 1.2.3 with the pre-release that is asked for
abbrev parse : String → Fetched SemVer
parse pre =
    if pre == "x"
    then fetch_error "no version"
    else fetched (record { major = 1; minor = 2; patch = 3; pre = pre; build = "" })

stable_release : ensure_track_matches_version parse "stable" "" ≡ accepted
unfolding ensure_track_matches_version
stable_release = refl

stable_prerelease :
    ensure_track_matches_version parse "stable" "stable" ≡ rejected invalid_stable_version
unfolding ensure_track_matches_version
stable_prerelease = refl

-- The first part of a version, and the text after it as the build
abbrev parse_first : String → Fetched SemVer
parse_first version =
    if version == "1"
    then fetched (record { major = 1; minor = 0; patch = 0; pre = ""; build = "" })
    else if version == "2"
    then fetched (record { major = 2; minor = 0; patch = 0; pre = ""; build = "" })
    else if version == "2+b"
    then fetched (record { major = 2; minor = 0; patch = 0; pre = ""; build = "b" })
    else fetch_error "no version"

abbrev semver : Semver
semver = record {
  parse = parse_first;
  compare = λ v w. compare v.major w.major;
  show = λ v. v.build;
}

compare_same : (v : SemVer) → compare v.major v.major ≡ Ordering.eq
compare_same v = ground arith

abbrev latest_module : ModuleResp
latest_module = record {
  track = "stable";
  version = "2";
  module_name = "Bucket";
  module_id = "bucket";
  module_type = "module";
  tf_variables = [];
  tf_outputs = [];
  tf_providers = [];
  cpu = "1";
  memory = "2";
  deprecated = false;
  deprecated_message = none;
}

-- The state is the latest module, if there is one.
abbrev registry : Latest (Option ModuleResp)
registry = record {
  get_latest_module_version = λ name track s. fetched s;
  get_latest_stack_version = λ name track s. fetched none;
}

older_version :
    compare_latest_version semver registry plain_module "bucket" "1" "stable" (some latest_module)
    ≡ fetch_error "Module version  is older than the latest version  in track stable"
unfolding compare_latest_version semver_parse_without_build
older_version = refl

another_build :
    compare_latest_version semver registry plain_module "bucket" "2+b" "stable" (some latest_module)
    ≡ fetched (some latest_module)
unfolding compare_latest_version semver_parse_without_build
another_build = refl

compare_latest_version-IsNewer_example :
    IsAfter semver registry "2+b" latest_module × ¬ ("2+b" ≡ latest_module.version)
compare_latest_version-IsNewer_example =
    compare_latest_version-IsNewer semver registry compare_same plain_module "bucket" "2+b" "stable"
      (some latest_module) latest_module (some latest_module) refl refl another_build
