-- ===== src/Gitops/Groups.antt =====
-- gitops/src/gitops.rs. The YAML of serde is two parameters, and the order in which a HashMap is walked
-- a third. A map of changes is the list of its values, each under its own key.
use infraweave.Prelude.{
  Bool, not, ◌&&◌, Option, none, some, String, List, [], ◌∷◌, ◌++◌, ◌==◌, split_text, trim,
  if◌then◌else◌,
}
use infraweave.Infra.Manifest.{DeploymentManifest}
use infraweave.Json.{◌>>=◌}
use infraweave.Gitops.{FileChange, ProcessedFiles, GroupKey, GroupedFile, ManifestChange}

abbrev pub same_key : GroupKey → GroupKey → Bool
same_key k l =
    k.api_version == l.api_version
    && k.kind == l.kind
    && k.name == l.name
    && k.namespace == l.namespace
    && k.region == l.region

-- `get`, `insert`, `remove` of a HashMap
abbrev pub get : GroupKey → List ManifestChange → Option ManifestChange
get key [] = none
get key (c ∷ changes) = let rest = get key changes in if same_key key c.key then some c else rest

abbrev pub insert : ManifestChange → List ManifestChange → List ManifestChange
insert change [] = change ∷ []
insert change (c ∷ changes) =
    let rest = insert change changes in
    if same_key change.key c.key then change ∷ changes else c ∷ rest

abbrev pub remove : GroupKey → List ManifestChange → List ManifestChange
remove key [] = []
remove key (c ∷ changes) =
    let rest = remove key changes in if same_key key c.key then rest else c ∷ rest

abbrev pub insert_all : List ManifestChange → List ManifestChange → List ManifestChange
insert_all [] changes = changes
insert_all (c ∷ cs) changes = insert_all cs (insert c changes)

-- The three kinds of group
abbrev pub apply_group : GroupKey → ManifestChange → GroupedFile
apply_group key c = record {
  key = key;
  active = some (c.file, c.content);
  deleted = none;
  renamed = none;
}

abbrev pub delete_group : GroupKey → ManifestChange → GroupedFile
delete_group key c = record {
  key = key;
  active = none;
  deleted = some (c.file, c.content);
  renamed = none;
}

abbrev pub rename_group : GroupKey → ManifestChange → GroupedFile
rename_group key c = record {
  key = key;
  active = none;
  deleted = none;
  renamed = some (c.file, c.content);
}

abbrev pub is_pure_rename : ManifestChange → ManifestChange → Bool
is_pure_rename active_change deleted_change =
    active_change.content == deleted_change.content
    && active_change.file.content == deleted_change.file.content
    && not (active_change.file.path == deleted_change.file.path)

-- The key of a change under another region
abbrev in_region : String → GroupKey → GroupKey
in_region region key = record {
  api_version = key.api_version;
  kind = key.kind;
  name = key.name;
  namespace = key.namespace;
  region = region;
}

-- What the loop keeps
pub record Grouping : Type 0 where
  pub deleted_changes : List ManifestChange
  pub groups : List GroupedFile

abbrev pub push_group : GroupedFile → Grouping → Grouping
push_group g st = record { deleted_changes = st.deleted_changes; groups = st.groups ++ (g ∷ []) }

-- What is left in the map of deletions
abbrev pub push_deleted :
    List ManifestChange → List ManifestChange → List GroupedFile → List GroupedFile
push_deleted [] active_changes groups = groups
push_deleted (c ∷ cs) active_changes groups =
    push_deleted cs active_changes (elim (get c.key active_changes) [
      | some a ↦ groups
      | none ↦ groups ++ (delete_group c.key c ∷ [])
    ])

module _ {Y : Type 0} (from_str : String → Option (DeploymentManifest Y))
    (to_string : DeploymentManifest Y → Option String) where
  abbrev pub key_of : DeploymentManifest Y → GroupKey
  key_of manifest = record {
    api_version = manifest.api_version;
    kind = manifest.kind;
    name = manifest.name;
    namespace = elim manifest.namespace [ some namespace ↦ namespace | none ↦ "default" ];
    region = manifest.region;
  }

  abbrev pub change_of :
      FileChange → Option (DeploymentManifest Y) → List ManifestChange → List ManifestChange
  change_of file none changes = changes
  change_of file (some manifest) changes = elim (to_string manifest) [
    | some canonical ↦ record { key = key_of manifest; content = canonical; file = file } ∷ changes
    | none ↦ changes
  ]

  abbrev pub changes_of : FileChange → List String → List ManifestChange
  changes_of file [] = []
  changes_of file (doc ∷ docs) =
      let rest = changes_of file docs in
      if trim doc == "" then rest else change_of file (from_str (trim doc)) rest

  unfoldable pub extract_manifest_changes : FileChange → List ManifestChange
  extract_manifest_changes file = changes_of file (split_text "---" file.content)

  abbrev pub changes_in : List FileChange → List ManifestChange → List ManifestChange
  changes_in [] changes = changes
  changes_in (file ∷ files) changes =
      changes_in files (insert_all (extract_manifest_changes file) changes)

  -- Case 3 and case 4, none where one of the two documents is not read back
  abbrev pub compare_regions :
      GroupKey → ManifestChange → ManifestChange → Grouping → Option Grouping
  compare_regions key active_change deleted_change st = do
    a ← from_str active_change.content
    d ← from_str deleted_change.content
    some (
        if not (a.region == d.region)
        then record {
          deleted_changes = remove key st.deleted_changes;
          groups =
              st.groups
              ++ (delete_group (in_region d.region deleted_change.key) deleted_change
                  ∷ apply_group (in_region a.region active_change.key) active_change
                  ∷ []);
        }
        else push_group (apply_group key active_change) st)

  abbrev pub group_change : ManifestChange → Grouping → Option Grouping
  group_change active_change st = elim (get active_change.key st.deleted_changes) [
    | some deleted_change ↦
        if is_pure_rename active_change deleted_change
        then some (push_group (rename_group active_change.key active_change) st)
        else if active_change.content == deleted_change.content
        then some st
        else compare_regions active_change.key active_change deleted_change st
    | none ↦ some (push_group (apply_group active_change.key active_change) st)
  ]

  abbrev pub group_changes : List ManifestChange → Grouping → Option Grouping
  group_changes [] st = some st
  group_changes (c ∷ cs) st = do st' ← group_change c st; group_changes cs st'

  unfoldable pub group_files_by_manifest :
      (List ManifestChange → List ManifestChange) → ProcessedFiles → Option (List GroupedFile)
  group_files_by_manifest iter processed =
      let active_changes = changes_in processed.active_files [] in
      do
        st ←
            group_changes (iter active_changes)
              (record { deleted_changes = changes_in processed.deleted_files []; groups = [] })
        some (push_deleted (iter st.deleted_changes) active_changes st.groups)
