-- ===== src/Gitops.antt =====
-- gitops/src/defs.rs, diff.rs and gitops.rs: which claims a push applies, deletes or renames.
mod Groups
mod Reference
mod Tests
use infraweave.Prelude.{
  ℕ, Bool, true, false, not, ◌&&◌, Option, none, some, String, List, [], ◌∷◌, ◌++◌, ◌==◌, map,
  has_prefix, split_at, split_text, trim, if◌then◌else◌,
}
use infraweave.Infra.Manifest.{DeploymentManifest}

pub record FileChange : Type 0 where
  pub path : String
  pub content : String

pub record ProcessedFiles : Type 0 where
  pub active_files : List FileChange
  pub deleted_files : List FileChange

pub record GroupKey : Type 0 where
  pub api_version : String
  pub kind : String
  pub name : String
  pub namespace : String
  pub region : String

pub record GroupedFile : Type 0 where
  pub key : GroupKey
  pub active : Option (FileChange × String)
  pub deleted : Option (FileChange × String)
  pub renamed : Option (FileChange × String)

pub record ManifestChange : Type 0 where
  pub key : GroupKey
  pub content : String
  pub file : FileChange

-- A line of `git diff --name-status`: the status and the path
pub record ChangedFile : Type 0 where
  pub status : String
  pub file_path : String

abbrev any_prefix : String → List String → Bool
any_prefix file_path [] = false
any_prefix file_path (prefix ∷ prefixes) =
    let rest = any_prefix file_path prefixes in if has_prefix file_path prefix then true else rest

abbrev with_prefix : List String → List ChangedFile → List ChangedFile
with_prefix prefixes [] = []
with_prefix prefixes (c ∷ changes) =
    let rest = with_prefix prefixes changes in
    if any_prefix c.file_path prefixes then c ∷ rest else rest

-- FILE_PATH_PREFIX is the first argument.
unfoldable pub filtered_changes : Option String → List ChangedFile → List ChangedFile
filtered_changes none changes = changes
filtered_changes (some prefix_env) changes = with_prefix (map trim (split_at 44 prefix_env)) changes

-- What git holds of a path at a reference, none where that fails
module _ (get_file_content : String → String → Option String) (before_ref after_ref : String) where
  abbrev content_at : String → String → List FileChange
  content_at ref path = elim (get_file_content path ref) [
    | some content ↦ record { path = path; content = content } ∷ []
    | none ↦ []
  ]

  abbrev add_files : List FileChange → List FileChange → ProcessedFiles → ProcessedFiles
  add_files active deleted p = record {
    active_files = active ++ p.active_files;
    deleted_files = deleted ++ p.deleted_files;
  }

  -- The content before is read only where the content after could be.
  abbrev modified : String → List FileChange → ProcessedFiles → ProcessedFiles
  modified path [] p = p
  modified path (f ∷ fs) p = add_files (f ∷ fs) (content_at before_ref path) p

  unfoldable pub sort_changes : List ChangedFile → ProcessedFiles
  sort_changes [] = record { active_files = []; deleted_files = [] }
  sort_changes (c ∷ changes) =
      let p = sort_changes changes in
      if c.status == "A"
      then add_files (content_at after_ref c.file_path) [] p
      else if c.status == "M"
      then modified c.file_path (content_at after_ref c.file_path) p
      else if c.status == "D"
      then add_files [] (content_at before_ref c.file_path) p
      else p

  -- `changes` is what `git diff` reports, none where it fails.
  unfoldable pub get_diff : Option String → Option (List ChangedFile) → Option ProcessedFiles
  get_diff path_prefix none = none
  get_diff path_prefix (some changes) = some (sort_changes (filtered_changes path_prefix changes))
