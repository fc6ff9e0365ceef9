-- ===== src/Tui/ModalFilter.antt =====
-- The selection of the filter modal of cli/src/tui/state/modal_state.rs.
use infraweave.Prelude.{
  ℕ, ◌<◌, ◌≡◌, true, Option, none, some, String, List, [], ◌∷◌, length, get_elem?, contains, ◌==◌,
  eq_iff, arith, Option-cases, Bool-cases, inl, inr, suc,
}
use infraweave.Tui.Modal.{FilterType, ModalState, position, show_filter_modal}

position-lt : (a : String) (xs : List String) (i : ℕ) → position a xs ≡ some i → i < length xs
position-lt a [] i h = ground arith
position-lt a (x ∷ xs) i h = elim (Option-cases (position a xs)) [
  | inl e ↦ ground (arith, h, e)
  | inr (j, e) ↦ ground (arith, h, e, position-lt a xs j e)
]

position_first :
    (a : String) (xs : List String)
    → contains xs a ≡ true
    → (i : ℕ) × (position a xs ≡ some i) × (get_elem? xs i ≡ some a)
position_first a [] h = ground arith
position_first a (x ∷ xs) h = elim (Bool-cases (x == a)) [
  | inl e ↦ (0, ground (arith, e), ground (arith, e, eq_iff x a))
  | inr e ↦
      let (i, e1, e2) = position_first a xs (ground (arith, h, e)) in
      (suc i, ground (arith, e, e1), e2)
]

module _ {V : Type 0} where
  -- The filter modal opens with the filter that is in use selected, where that is among the options.
  pub get_elem?-show_filter_modal :
      (f : FilterType) (options : List String) (selection : String) (s : ModalState V)
      → contains options selection ≡ true
      → get_elem?
          (show_filter_modal f options (some selection) s).filter_options
          (show_filter_modal f options (some selection) s).filter_selected_index
        ≡ some selection
  unfolding show_filter_modal
  get_elem?-show_filter_modal f options selection s h =
      let (i, e1, e2) = position_first selection options h in ground (arith, e1, e2)

  -- Whatever filter is in use, the option selected at first is one of the options, if there are any.
  pub show_filter_modal-lt :
      (f : FilterType) (options : List String) (current : Option String) (s : ModalState V)
      → 0 < length options
      → (show_filter_modal f options current s).filter_selected_index < length options
  unfolding show_filter_modal
  show_filter_modal-lt f options none s h = h
  show_filter_modal-lt f options (some selection) s h =
      elim (Option-cases (position selection options)) [
        | inl e ↦ ground (arith, h, e)
        | inr (i, e) ↦ ground (arith, e, position-lt selection options i e)
      ]
