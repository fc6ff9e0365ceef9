-- ===== src/Gitops/Reference.antt =====
-- The groups of gitops/src/gitops.rs described without a loop that changes the map of deletions.
use infraweave.Prelude.{
  true, not, ◌&&◌, Option, none, some, String, List, [], ◌∷◌, ◌++◌, ◌==◌, ◌≡◌, refl, sym, ap, subst,
  some_inj, ◌∙◌, eq_iff, inl, inr, arith, All, trim, split_text, eq_refl, Bool-cases, Option-cases,
  if◌then◌else◌,
}
use infraweave.Infra.Manifest.{DeploymentManifest}
use infraweave.Gitops.{FileChange, ProcessedFiles, GroupKey, GroupedFile, ManifestChange}
use infraweave.Gitops.Groups.{
  same_key, get, insert, insert_all, apply_group, delete_group, rename_group, is_pure_rename,
  Grouping, push_group, push_deleted, change_of, changes_of, extract_manifest_changes, changes_in,
  compare_regions, group_change, group_changes, group_files_by_manifest,
}

-- A change of an active file: it renames, is left out or applies.
abbrev pub expected_group : List ManifestChange → ManifestChange → List GroupedFile
expected_group deleted_changes a = elim (get a.key deleted_changes) [
  | some d ↦
      if a.content == d.content
      then if is_pure_rename a d then rename_group a.key a ∷ [] else []
      else apply_group a.key a ∷ []
  | none ↦ apply_group a.key a ∷ []
]

abbrev pub expected_active : List ManifestChange → List ManifestChange → List GroupedFile
expected_active deleted_changes [] = []
expected_active deleted_changes (a ∷ changes) =
    expected_group deleted_changes a ++ expected_active deleted_changes changes

abbrev pub expected_deleted : List ManifestChange → List ManifestChange → List GroupedFile
expected_deleted active_changes [] = []
expected_deleted active_changes (d ∷ changes) =
    let rest = expected_deleted active_changes changes in
    elim (get d.key active_changes) [ some a ↦ rest | none ↦ delete_group d.key d ∷ rest ]

append_nil {ℓ} : {A : Type ℓ} (xs : List A) → xs ++ [] ≡ xs
append_nil [] = refl
append_nil (x ∷ xs) = ap (λ l. x ∷ l) (append_nil xs)

append_assoc {ℓ} : {A : Type ℓ} (xs ys zs : List A) → (xs ++ ys) ++ zs ≡ xs ++ (ys ++ zs)
append_assoc [] ys zs = refl
append_assoc (x ∷ xs) ys zs = ap (λ l. x ∷ l) (append_assoc xs ys zs)

push_deleted-expected_deleted :
    (changes active_changes : List ManifestChange) (groups : List GroupedFile)
    → push_deleted changes active_changes groups ≡ groups ++ expected_deleted active_changes changes
push_deleted-expected_deleted [] active_changes groups = sym (append_nil groups)
push_deleted-expected_deleted (c ∷ cs) active_changes groups =
    elim (Option-cases (get c.key active_changes)) [
      | inl e ↦
          rw (e, expected_deleted)
            (push_deleted-expected_deleted cs active_changes (groups ++ (delete_group c.key c ∷ []))
              ∙ append_assoc groups (delete_group c.key c ∷ [])
                  (expected_deleted active_changes cs))
      | inr (a, e) ↦
          rw (e, expected_deleted) (push_deleted-expected_deleted cs active_changes groups)
    ]

get-hit :
    (key : GroupKey) (c : ManifestChange) (changes : List ManifestChange)
    → same_key key c.key ≡ true
    → get key (c ∷ changes) ≡ some c
get-hit key c changes s = rw s refl

same_key-region : (k l : GroupKey) → same_key k l ≡ true → k.region ≡ l.region
same_key-region k l h = ground (arith, h, eq_iff k.region l.region)

module _ {Y : Type 0} (from_str : String → Option (DeploymentManifest Y))
    (to_string : DeploymentManifest Y → Option String) where
  -- The text of a change is read back, with the region of its key.
  abbrev IsReadBack : ManifestChange → Type 0
  IsReadBack c =
      (m : DeploymentManifest Y) × (from_str c.content ≡ some m) × (m.region ≡ c.key.region)

  abbrev pub ReadsBack : Type 0
  ReadsBack =
      (m : DeploymentManifest Y) (t : String)
      → to_string m ≡ some t
      → (n : DeploymentManifest Y) × (from_str t ≡ some n) × (n.region ≡ m.region)

  get-IsReadBack :
      (key : GroupKey) (changes : List ManifestChange) (c : ManifestChange)
      → All IsReadBack changes
      → get key changes ≡ some c
      → IsReadBack c × (key.region ≡ c.key.region)
  get-IsReadBack key [] c h e = ground (arith, e)
  get-IsReadBack key (x ∷ xs) c (p, h) e = elim (Bool-cases (same_key key x.key)) [
    | inl s ↦
        subst (λ d. IsReadBack d × (key.region ≡ d.key.region))
          (some_inj.0 (sym (get-hit key x xs s) ∙ e)) (p, same_key-region key x.key s)
    | inr s ↦ get-IsReadBack key xs c h (sym (rw s refl) ∙ e)
  ]

  insert-All :
      (P : ManifestChange → Type 0) (c : ManifestChange) (changes : List ManifestChange)
      → P c
      → All P changes
      → All P (insert c changes)
  insert-All P c [] p h = (p, tt)
  insert-All P c (x ∷ xs) p (q, h) = elim (Bool-cases (same_key c.key x.key)) [
    | inl s ↦ rw s (p, h)
    | inr s ↦ rw s (q, insert-All P c xs p h)
  ]

  insert_all-All :
      (P : ManifestChange → Type 0) (cs changes : List ManifestChange)
      → All P cs
      → All P changes
      → All P (insert_all cs changes)
  insert_all-All P [] changes h k = k
  insert_all-All P (c ∷ cs) changes (p, h) k =
      insert_all-All P cs (insert c changes) h (insert-All P c changes p k)

  change_of-All :
      (back : ReadsBack) (file : FileChange) (parsed : Option (DeploymentManifest Y))
      (changes : List ManifestChange)
      → All IsReadBack changes
      → All IsReadBack (change_of from_str to_string file parsed changes)
  change_of-All back file none changes h = h
  change_of-All back file (some m) changes h = elim (Option-cases (to_string m)) [
    | inl e ↦ rw (All, e) h
    | inr (t, e) ↦ rw (All, e) (back m t e, h)
  ]

  changes_of-All :
      (back : ReadsBack) (file : FileChange) (docs : List String)
      → All IsReadBack (changes_of from_str to_string file docs)
  changes_of-All back file [] = tt
  changes_of-All back file (doc ∷ docs) = elim (Bool-cases (trim doc == "")) [
    | inl e ↦ rw e (changes_of-All back file docs)
    | inr e ↦ rw e (change_of-All back file _ _ (changes_of-All back file docs))
  ]

  changes_in-All :
      (back : ReadsBack) (files : List FileChange) (changes : List ManifestChange)
      → All IsReadBack changes
      → All IsReadBack (changes_in from_str to_string files changes)
  unfolding extract_manifest_changes
  changes_in-All back [] changes h = h
  changes_in-All back (file ∷ files) changes h = changes_in-All back files _ (
      insert_all-All IsReadBack (extract_manifest_changes from_str to_string file) changes
        (changes_of-All back file (split_text "---" file.content)) h)

  compare_regions-push_group :
      (key : GroupKey) (a d : ManifestChange) (st : Grouping)
      → IsReadBack a
      → IsReadBack d
      → a.key.region ≡ d.key.region
      → compare_regions from_str to_string key a d st ≡ some (push_group (apply_group key a) st)
  compare_regions-push_group key a d st (m, e, p) (n, f, q) r =
      rw (e, f, p, q, r, eq_refl d.key.region) refl

  with_groups : Grouping → List GroupedFile → Grouping
  with_groups st gs = record { deleted_changes = st.deleted_changes; groups = st.groups ++ gs }

  group_change-expected_group :
      (a : ManifestChange) (st : Grouping)
      → IsReadBack a
      → All IsReadBack st.deleted_changes
      → group_change from_str to_string a st
        ≡ some (with_groups st (expected_group st.deleted_changes a))
  unfolding with_groups
  group_change-expected_group a st p h = elim (Option-cases (get a.key st.deleted_changes)) [
    | inl e ↦ rw (group_change, expected_group, e) refl
    | inr (d, e) ↦ elim (Bool-cases (a.content == d.content)) [
      | inl s ↦
          elim (Bool-cases (a.file.content == d.file.content && not (a.file.path == d.file.path))) [
            | inl r ↦ rw (group_change, expected_group, e, s, r) refl
            | inr r ↦ rw (group_change, expected_group, e, s, r, append_nil st.groups) refl
          ]
      | inr s ↦
          let (q, r) = get-IsReadBack a.key st.deleted_changes d h e in
          rw (group_change, expected_group, e, s) (compare_regions-push_group a.key a d st p q r)
    ]
  ]

  group_changes-expected_active :
      (changes : List ManifestChange) (st : Grouping)
      → All IsReadBack changes
      → All IsReadBack st.deleted_changes
      → group_changes from_str to_string changes st
        ≡ some (with_groups st (expected_active st.deleted_changes changes))
  unfolding with_groups
  group_changes-expected_active [] st p h =
      ap (λ gs. some (record { deleted_changes = st.deleted_changes; groups = gs }))
        (sym (append_nil st.groups))
  group_changes-expected_active (a ∷ changes) st (q, p) h =
      rw (group_changes, group_change-expected_group a st q h)
        (group_changes-expected_active changes
            (with_groups st (expected_group st.deleted_changes a)) p h
          ∙ ap (λ gs. some (record { deleted_changes = st.deleted_changes; groups = gs }))
              (append_assoc st.groups (expected_group st.deleted_changes a)
                (expected_active st.deleted_changes changes)))

  -- The groups in the order in which the two maps are walked
  unfoldable pub expected_groups :
      (List ManifestChange → List ManifestChange) → ProcessedFiles → List GroupedFile
  expected_groups iter processed =
      let active_changes = changes_in from_str to_string processed.active_files [] in
      let deleted_changes = changes_in from_str to_string processed.deleted_files [] in
      expected_active deleted_changes (iter active_changes)
      ++ expected_deleted active_changes (iter deleted_changes)

  -- Where serde reads what it wrote with the same region, and a walk of a map visits only what the map
  -- holds, grouping never panics, and the groups are those of a description in which a change of region
  -- is no case: what is active is applied, renamed or, where nothing changed, left out, and what is only
  -- deleted is deleted.
  pub group_files_by_manifest-expected_groups :
      (back : ReadsBack) (iter : List ManifestChange → List ManifestChange)
      (visits : (P : ManifestChange → Type 0) (changes : List ManifestChange)
        → All P changes
        → All P (iter changes))
      (processed : ProcessedFiles)
      → group_files_by_manifest from_str to_string iter processed
        ≡ some (expected_groups iter processed)
  unfolding group_files_by_manifest expected_groups with_groups
  group_files_by_manifest-expected_groups back iter visits processed =
      let active_changes = changes_in from_str to_string processed.active_files [] in
      let deleted_changes = changes_in from_str to_string processed.deleted_files [] in
      rw
        (group_changes-expected_active (iter active_changes)
          (record { deleted_changes = deleted_changes; groups = [] })
          (visits IsReadBack active_changes (changes_in-All back processed.active_files [] tt))
          (changes_in-All back processed.deleted_files [] tt))
        (ap some (
          push_deleted-expected_deleted (iter deleted_changes) active_changes
            (expected_active deleted_changes (iter active_changes))))
