-- ===== src/Tui/InputValid.antt =====
-- What typing and deleting do in cli/src/tui/state/claim_builder_state.rs.
use infraweave.Prelude.{
  ℕ, ◌+◌, ◌-◌, ◌<◌, ◌≡◌, refl, sym, ◌∙◌, subst, Bool, true, false, Option, none, some, some_inj,
  Char, List, [], ◌∷◌, ltb, leb, eqb, arith, Bool-cases, Option-cases, inl, inr, ◌⊎◌,
}
use infraweave.Tui.Input.{
  VariableInput, len_utf8, insert, remove_at, is_bool, is_number, is_valid_char_for_type, inserted,
  insert_char, delete_char,
}

-- How an insertion into `x ∷ xs` gives `ys`: at the start, or further.
abbrev Insertion : Char → List Char → ℕ → Char → List Char → Type 0
Insertion x xs i c ys =
    ((eqb i 0 ≡ true) × (c ∷ x ∷ xs ≡ ys))
    ⊎ ((zs : List Char) × (eqb i 0 ≡ false)
        × (leb (len_utf8 x) i ≡ true)
        × (insert xs (i - len_utf8 x) c ≡ some zs)
        × (x ∷ zs ≡ ys))

insert-Insertion :
    (x : Char) (xs : List Char) (i : ℕ) (c : Char) (ys : List Char)
    → insert (x ∷ xs) i c ≡ some ys
    → Insertion x xs i c ys
insert-Insertion x xs i c ys h = elim (Bool-cases (eqb i 0)) [
  | inl e ↦ inl (e, some_inj.0 (sym (rw e) ∙ h))
  | inr e ↦ elim (Bool-cases (leb (len_utf8 x) i)) [
    | inr l ↦ ground (arith, h, e, l)
    | inl l ↦ elim (Option-cases (insert xs (i - len_utf8 x) c)) [
      | inl n ↦ ground (arith, h, e, l, n)
      | inr (zs, z) ↦ inr (zs, e, l, z, some_inj.0 (sym (rw (e, l, z)) ∙ h))
    ]
  ]
]

insert_empty :
    (i : ℕ) (c : Char) (ys : List Char) → insert [] i c ≡ some ys → (eqb i 0 ≡ true) × (c ∷ [] ≡ ys)
insert_empty i c ys h = elim (Bool-cases (eqb i 0)) [
  | inl e ↦ (e, some_inj.0 (sym (rw e) ∙ h))
  | inr e ↦ ground (arith, h, e)
]

remove_at-insert :
    (xs : List Char) (i : ℕ) (c : Char) (ys : List Char)
    → insert xs i c ≡ some ys
    → remove_at ys i ≡ some xs
remove_at-insert [] i c ys h =
    let (e, p) = insert_empty i c ys h in subst (λ l. remove_at l i ≡ some []) p (rw e)
remove_at-insert (x ∷ xs) i c ys h = elim (insert-Insertion x xs i c ys h) [
  | inl (e, p) ↦ subst (λ l. remove_at l i ≡ some (x ∷ xs)) p (rw e)
  | inr (zs, e, l, z, p) ↦
      subst (λ l. remove_at l i ≡ some (x ∷ xs)) p
        (rw (e, l, remove_at-insert xs (i - len_utf8 x) c zs z))
]

insert_inside :
    (c : Char) (xs : List Char) (i : ℕ) (d : Char)
    → 1 < len_utf8 c
    → eqb i 0 ≡ true
    → insert (c ∷ xs) (i + 1) d ≡ none
insert_inside c xs i d wide e = elim (Bool-cases (leb (len_utf8 c) (i + 1))) [
  | inl l ↦ ground (arith, e, l)
  | inr l ↦ elim (Bool-cases (eqb (i + 1) 0)) [ inl z ↦ ground (arith, z) | inr z ↦ rw (z, l) ]
]

insert-insert :
    (xs : List Char) (i : ℕ) (c d : Char) (ys : List Char)
    → 1 < len_utf8 c
    → insert xs i c ≡ some ys
    → insert ys (i + 1) d ≡ none
insert-insert [] i c d ys wide h =
    let (e, p) = insert_empty i c ys h in
    subst (λ l. insert l (i + 1) d ≡ none) p (insert_inside c [] i d wide e)
insert-insert (x ∷ xs) i c d ys wide h = elim (insert-Insertion x xs i c ys h) [
  | inl (e, p) ↦ subst (λ l. insert l (i + 1) d ≡ none) p (insert_inside c (x ∷ xs) i d wide e)
  | inr (zs, e, l, z, p) ↦
      let further : eqb (i + 1) 0 ≡ false = ground arith in
      let long : leb (len_utf8 x) (i + 1) ≡ true = ground (arith, l) in
      let place : i + 1 - len_utf8 x ≡ i - len_utf8 x + 1 = ground (arith, l) in
      subst (λ l. insert l (i + 1) d ≡ none) p
        (rw (further, long, place, insert-insert xs (i - len_utf8 x) c d zs wide z))
]

inserted_value :
    (s t : VariableInput) (o : Option (List Char))
    → inserted s o ≡ some t
    → (ys : List Char) × (o ≡ some ys)
      × (record s { user_value = ys; cursor_position = s.cursor_position + 1 } ≡ t)
inserted_value s t none h = ground (arith, h)
inserted_value s t (some ys) h = (ys, refl, some_inj.0 h)

module _ (to_lowercase : List Char → List Char) (is_numeric : Char → Bool) where
  insert_char-text :
      (c : Char) (s : VariableInput)
      → is_bool to_lowercase s ≡ false
      → is_number to_lowercase s ≡ false
      → insert_char to_lowercase is_numeric c s
        ≡ inserted s (insert s.user_value s.cursor_position c)
  unfolding insert_char is_valid_char_for_type
  insert_char-text c s not_bool not_number = rw (not_bool, not_number)

  delete_char-text :
      (s : VariableInput) (ys : List Char)
      → remove_at ys s.cursor_position ≡ some s.user_value
      → is_bool to_lowercase s ≡ false
      → delete_char to_lowercase
          (record s { user_value = ys; cursor_position = s.cursor_position + 1 })
        ≡ some s
  unfolding delete_char is_bool
  delete_char-text s ys e not_bool =
      let positive : ltb 0 (s.cursor_position + 1) ≡ true = ground arith in
      let back : s.cursor_position + 1 - 1 ≡ s.cursor_position = omega arith in
      rw positive (rw back (rw e (rw not_bool (rw back))))

  -- In a field that is neither a Bool nor a number, deleting undoes the typing of any character.
  pub delete_char-insert_char :
      (c : Char) (s t : VariableInput)
      → is_bool to_lowercase s ≡ false
      → is_number to_lowercase s ≡ false
      → insert_char to_lowercase is_numeric c s ≡ some t
      → delete_char to_lowercase t ≡ some s
  unfolding delete_char is_bool
  delete_char-insert_char c s t not_bool not_number h =
      let (ys, e, p) = inserted_value s t _ (sym (insert_char-text c s not_bool not_number) ∙ h) in
      subst (λ u. delete_char to_lowercase u ≡ some s) p
        (delete_char-text s ys (remove_at-insert s.user_value s.cursor_position c ys e) not_bool)

  -- After a character of more than one byte is typed in such a field, the next one that is typed
  -- panics: the cursor moves by one and stands inside the character.
  pub insert_char-insert_char :
      (c d : Char) (s t : VariableInput)
      → is_bool to_lowercase s ≡ false
      → is_number to_lowercase s ≡ false
      → 1 < len_utf8 c
      → insert_char to_lowercase is_numeric c s ≡ some t
      → insert_char to_lowercase is_numeric d t ≡ none
  unfolding is_bool is_number
  insert_char-insert_char c d s t not_bool not_number wide h =
      let (ys, e, p) = inserted_value s t _ (sym (insert_char-text c s not_bool not_number) ∙ h) in
      subst (λ u. insert_char to_lowercase is_numeric d u ≡ none) p
        (insert_char-text d (record s { user_value = ys; cursor_position = s.cursor_position + 1 })
            not_bool not_number
          ∙ rw (insert-insert s.user_value s.cursor_position c d ys wide e))
