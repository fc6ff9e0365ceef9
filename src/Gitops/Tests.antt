-- ===== src/Gitops/Tests.antt =====
-- Runs of the grouping of claims, and the example of its theorem.
use infraweave.Prelude.{
  ◌≡◌, refl, sym, ap, ◌∙◌, some_inj, true, Option, none, some, String, [], ◌∷◌, ◌==◌, eq_iff, inl,
  inr, Bool-cases, if◌then◌else◌, split_text, arith,
}
use infraweave.Json.{is_some}
use infraweave.Infra.Manifest.{DeploymentManifest}
use infraweave.Gitops.{
  FileChange, ProcessedFiles, GroupKey, ManifestChange, filtered_changes, sort_changes, get_diff,
}
use infraweave.Gitops.Groups.{
  apply_group, rename_group, group_files_by_manifest, extract_manifest_changes,
}
use infraweave.Gitops.Reference.{
  ReadsBack, expected_groups, group_files_by_manifest-expected_groups,
}

abbrev Manifest : Type 0
Manifest = DeploymentManifest (Unit {0})

abbrev manifest : Option String → Manifest
manifest reference = record {
  name = "b";
  namespace = none;
  annotations = none;
  api_version = "infraweave.io/v1";
  kind = "S3Bucket";
  module_version = some "1.0.0";
  stack_version = none;
  region = "eu";
  reference = reference;
  variables = tt;
  dependencies = none;
  drift_detection = none;
}

-- A form of writing that knows two documents
abbrev from_str : String → Option Manifest
from_str t =
    if t == "one"
    then some (manifest none)
    else if t == "two"
    then some (manifest (some "r"))
    else none

abbrev to_string : Manifest → Option String
to_string m =
    if m.region == "eu" then if is_some m.reference then some "two" else some "one" else none

read_in_eu :
    (m : Manifest) (t text : String) (n : Manifest)
    → (m.region == "eu") ≡ true
    → some text ≡ some t
    → from_str text ≡ some n
    → n.region ≡ "eu"
    → (n : Manifest) × (from_str t ≡ some n) × (n.region ≡ m.region)
read_in_eu m t text n e h p r =
    (n, ap from_str (sym (some_inj.0 h)) ∙ p, r ∙ sym ((eq_iff m.region "eu").0 e))

from_str-to_string : ReadsBack from_str to_string
from_str-to_string m t h = elim (Bool-cases (m.region == "eu")) [
  | inl e ↦ elim (Bool-cases (is_some m.reference)) [
    | inl r ↦ read_in_eu m t "two" (manifest (some "r")) e (sym (rw (e, r) refl) ∙ h) refl refl
    | inr r ↦ read_in_eu m t "one" (manifest none) e (sym (rw (e, r) refl) ∙ h) refl refl
  ]
  | inr e ↦ ground (arith, h, e)
]

abbrev key : GroupKey
key = record {
  api_version = "infraweave.io/v1";
  kind = "S3Bucket";
  name = "b";
  namespace = "default";
  region = "eu";
}

abbrev file : String → String → FileChange
file path content = record { path = path; content = content }

abbrev change : String → FileChange → ManifestChange
change content file = record { key = key; content = content; file = file }

-- A claim whose content changed, between two documents that are no claims
abbrev changed : ProcessedFiles
changed = record {
  active_files = file "b.yaml" "x\n---\ntwo\n---\n" ∷ [];
  deleted_files = file "b.yaml" " one" ∷ [];
}

abbrev moved : ProcessedFiles
moved = record {
  active_files = file "new.yaml" "one" ∷ [];
  deleted_files = file "old.yaml" "one" ∷ [];
}

split_text_documents : split_text "---" "a---b------" ≡ "a" ∷ "b" ∷ "" ∷ "" ∷ []
split_text_documents = refl

moved_is_renamed :
    group_files_by_manifest from_str to_string (λ changes. changes) moved
    ≡ some (rename_group key (change "one" (file "new.yaml" "one")) ∷ [])
unfolding group_files_by_manifest extract_manifest_changes
moved_is_renamed = refl

group_files_by_manifest-expected_groups_example :
    group_files_by_manifest from_str to_string (λ changes. changes) changed
    ≡ some (apply_group key (change "two" (file "b.yaml" "x\n---\ntwo\n---\n")) ∷ [])
unfolding expected_groups extract_manifest_changes
group_files_by_manifest-expected_groups_example =
    group_files_by_manifest-expected_groups from_str to_string from_str-to_string
      (λ changes. changes) (λ P changes h. h) changed

abbrev git : String → String → Option String
git path ref = if path == "gone" then none else some ref

get_diff_of_a_push :
    get_diff git "before" "after" (some "claims/, gone") (
      some (
        record { status = "M"; file_path = "claims/a" }
        ∷ record { status = "D"; file_path = "claims/b" }
        ∷ record { status = "R"; file_path = "claims/c" }
        ∷ record { status = "A"; file_path = "docs/d" }
        ∷ record { status = "A"; file_path = "gone" }
        ∷ []))
    ≡ some (record {
      active_files = file "claims/a" "after" ∷ [];
      deleted_files = file "claims/a" "before" ∷ file "claims/b" "before" ∷ [];
    })
unfolding get_diff filtered_changes sort_changes
get_diff_of_a_push = refl
