-- ===== src/Redact/Hidden.antt =====
-- What utils/src/redact.rs hides.
use infraweave.Prelude.{
  ℕ, ◌-◌, ◌≤◌, ◌≡◌, refl, sym, ap, ◌∙◌, Bool, true, ◌&&◌, Option, none, some, String, List, [], ◌∷◌,
  ◌++◌, map, Char, code, eqb, arith, ltb, join, concat, Bool-cases, inl, inr, if◌then◌else◌,
}
use infraweave.Redact.{
  count_chars, take_chars, drop_chars, is_sensitive_key, Split, before, splits, find_key,
  split_at_sensitive_key, masked, mask_value, sanitize_split, sanitize_arg, sanitize_cli_args,
}

-- A key, an equals sign and a value
abbrev pub argument : String → String → String
argument String.[] value = String.◌∷◌ "=" value
argument (String.◌∷◌ c key) value = String.◌∷◌ c (argument key value)

abbrev map_split : (Split → Split) → Option Split → Option Split
map_split f none = none
map_split f (some s) = some (f s)

find_key-before :
    (p : String → Bool) (c : Char) (ss : List Split)
    → find_key p (map (before c) ss) ≡ map_split (before c) (find_key (λ k. p (String.◌∷◌ c k)) ss)
find_key-before p c [] = refl
find_key-before p c (s ∷ ss) = elim (Bool-cases (p (String.◌∷◌ c s.key))) [
  | inl e ↦ rw e refl
  | inr e ↦ rw e (find_key-before p c ss)
]

-- The first place of an equals sign, or one further on
find_key-cons :
    (p : String → Bool) (c : Char) (s : String)
    → find_key p (splits (String.◌∷◌ c s)) ≡ (
        if eqb (code c) 61 && p ""
        then some (record { key = ""; value = s })
        else map_split (before c) (find_key (λ k. p (String.◌∷◌ c k)) (splits s)))
find_key-cons p c s = elim (Bool-cases (eqb (code c) 61)) [
  | inl e ↦ elim (Bool-cases (p "")) [
    | inl q ↦ rw (e, q) refl
    | inr q ↦ rw (e, q) (find_key-before p c (splits s))
  ]
  | inr e ↦ rw e (find_key-before p c (splits s))
]

map_split-none : (f : Split → Split) (o : Option Split) → map_split f o ≡ none → o ≡ none
map_split-none f none h = refl
map_split-none f (some s) h = cc

absurd_of_some : {A : Type 0} (s : Split) → some s ≡ none → A
absurd_of_some s h = cc

-- The first key that passes is the one before which none does.
find_key-argument :
    (p : String → Bool) (key value : String)
    → find_key p (splits key) ≡ none
    → p key ≡ true
    → find_key p (splits (argument key value)) ≡ some (record { key = key; value = value })
find_key-argument p String.[] value h s = rw s refl
find_key-argument p (String.◌∷◌ c key) value h s = elim (Bool-cases (eqb (code c) 61 && p "")) [
  | inl e ↦
      absurd_of_some (record { key = ""; value = key })
        (sym (find_key-cons p c key ∙ rw e refl) ∙ h)
  | inr e ↦
      find_key-cons p c (argument key value)
      ∙ rw e (
          ap (map_split (before c)) (
            find_key-argument (λ k. p (String.◌∷◌ c k)) key value
              (map_split-none (before c) _ (sym (find_key-cons p c key ∙ rw e refl) ∙ h)) s))
]

-- Two values that are masked alike: of one length and, from twelve characters on, with the same three
-- at each end
abbrev pub AreAlike : String → String → Type 0
AreAlike v w =
    (count_chars v ≡ count_chars w)
    × (12 ≤ count_chars v
        → (take_chars 3 v ≡ take_chars 3 w)
          × (drop_chars (count_chars v - 3) v ≡ drop_chars (count_chars w - 3) w))

module _ (show_number : ℕ → String) where
  masked-short :
      (n : ℕ) (h t h' t' : String)
      → ltb n 12 ≡ true
      → masked show_number n h t ≡ masked show_number n h' t'
  masked-short n h t h' t' e = rw (masked, e) refl

  mask_value-alike :
      (v w : String) → AreAlike v w → mask_value show_number v ≡ mask_value show_number w
  unfolding mask_value
  mask_value-alike v w (n, f) =
      let mask = masked show_number in
      let end = λ (s : String). drop_chars (count_chars s - 3) s in
      ap (λ m. mask m (take_chars 3 v) (end v)) n ∙ elim (Bool-cases (ltb (count_chars v) 12)) [
        | inl e ↦
            masked-short (count_chars w) (take_chars 3 v) (end v) (take_chars 3 w) (end w)
              (ap (λ m. ltb m 12) (sym n) ∙ e)
        | inr e ↦
            let (a, b) = f (ground (arith, e)) in
            ap (λ h. mask (count_chars w) h (end v)) a
            ∙ ap (λ t. mask (count_chars w) (take_chars 3 w) t) b
      ]

  sanitize_arg-argument :
      (key value : String)
      → split_at_sensitive_key key ≡ none
      → is_sensitive_key key ≡ true
      → sanitize_arg show_number (argument key value)
        ≡ sanitize_split show_number
            (argument key value)
            (some (record { key = key; value = value }))
  unfolding split_at_sensitive_key
  sanitize_arg-argument key value h s =
      ap (sanitize_split show_number (argument key value))
        (find_key-argument is_sensitive_key key value h s)

  map-replaced :
      (xs zs : List String) (y y' : String)
      → sanitize_arg show_number y ≡ sanitize_arg show_number y'
      → map (sanitize_arg show_number) (xs ++ y ∷ zs)
        ≡ map (sanitize_arg show_number) (xs ++ y' ∷ zs)
  map-replaced [] zs y y' h = ap (λ s. s ∷ map (sanitize_arg show_number) zs) h
  map-replaced (x ∷ xs) zs y y' h =
      ap (λ ss. sanitize_arg show_number x ∷ ss) (map-replaced xs zs y y' h)

  -- Under a key that is sensitive, and of which no part before an equals sign is, two values print the
  -- same that have one length and, from twelve characters on, the same three at each end, whatever
  -- stands between those and in the other arguments: nothing else of a value is shown.
  pub sanitize_cli_args-alike :
      (xs zs : List String) (key v w : String)
      → split_at_sensitive_key key ≡ none
      → is_sensitive_key key ≡ true
      → AreAlike v w
      → sanitize_cli_args show_number (xs ++ argument key v ∷ zs)
        ≡ sanitize_cli_args show_number (xs ++ argument key w ∷ zs)
  unfolding sanitize_cli_args
  sanitize_cli_args-alike xs zs key v w h s alike = ap (join " ") (
      map-replaced xs zs (argument key v) (argument key w) (
        sanitize_arg-argument key v h s
        ∙ ap (λ m. concat (key ∷ "=" ∷ m ∷ [])) (mask_value-alike v w alike)
        ∙ sym (sanitize_arg-argument key w h s)))
