-- ===== src/Tui/ViewValid.antt =====
-- An invariant of cli/src/tui/state/view_state.rs over every sequence of operations.
use infraweave.Prelude.{
  ℕ, ◌-◌, ◌≤◌, ◌<◌, ◌≡◌, refl, true, Option, some, String, List, [], ◌∷◌, length, get_elem?,
  is_empty, sym, subst, arith, get_elem?-lt, length-get_elem?, inl, inr, Bool-cases, ltb,
}
use infraweave.Json.{and_then}
use infraweave.Tui.View
use infraweave.Tui.View.{
  CurrentView, modules, stacks, policies, deployments, ViewState, switch_track, same_view,
  clear_list,
}

-- The operations, as the event handlers call them; the time of a call is an argument.
pub data Operation (T : Type 0) : Type 0 where
  move_up page_up : Operation T
  move_down page_down : ℕ → Operation T
  next_track previous_track : T → Operation T
  change_view : CurrentView → Operation T

module _ {M D T : Type 0} where
  unfoldable pub apply : Operation T → ViewState M D T → Option (ViewState M D T)
  apply move_up s = some (View.move_up s)
  apply page_up s = some (View.page_up s)
  apply (move_down max_index) s = some (View.move_down max_index s)
  apply (page_down max_index) s = some (View.page_down max_index s)
  apply (next_track now) s = View.next_track now s
  apply (previous_track now) s = View.previous_track now s
  apply (change_view view) s = some (View.change_view view s)

  unfoldable pub run_view : List (Operation T) → ViewState M D T → Option (ViewState M D T)
  run_view [] s = some s
  run_view (op ∷ ops) s = and_then (apply op s) (run_view ops)

no_item : (xs : List String) (i : ℕ) (x : String) → is_empty xs ≡ true → get_elem? xs i ≡ some x → ⊥
no_item [] i x e h = ground arith
no_item (y ∷ ys) i x e h = ground arith

-- The track shown is the selected one of those there are.
abbrev pub IsValid : {M D T : Type 0} → ViewState M D T → Type 0
IsValid s = get_elem? s.available_tracks s.selected_track_index ≡ some s.current_track

module _ {M D T : Type 0} where
  abbrev Succeeds : Option (ViewState M D T) → Type 0
  Succeeds o = (t : ViewState M D T) × (o ≡ some t) × IsValid t

  IsValid-switch_track :
      (now : T) (i : ℕ) (s : ViewState M D T)
      → i < length s.available_tracks
      → Succeeds (switch_track now i s (get_elem? s.available_tracks i))
  IsValid-switch_track now i s h =
      let (track, e) = get_elem?-lt s.available_tracks i h in
      subst (λ o. Succeeds (switch_track now i s o)) (sym e) (_, refl, e)

  IsValid-next_track :
      (now : T) (s : ViewState M D T) → IsValid s → Succeeds (View.next_track now s)
  unfolding View.next_track
  IsValid-next_track now s h = elim (Bool-cases (is_empty s.available_tracks)) [
    | inl e ↦ ground (arith, no_item s.available_tracks _ _ e h)
    | inr e ↦ rw e (elim (Bool-cases (ltb s.selected_track_index (length s.available_tracks - 1))) [
      | inl l ↦ rw l (IsValid-switch_track now _ s (ground (arith, l)))
      | inr l ↦ rw l (s, refl, h)
    ])
  ]

  IsValid-previous_track :
      (now : T) (s : ViewState M D T) → IsValid s → Succeeds (View.previous_track now s)
  unfolding View.previous_track
  IsValid-previous_track now s h = elim (Bool-cases (ltb 0 s.selected_track_index)) [
    | inl l ↦ rw l (
        IsValid-switch_track now _ s (ground (arith, l, length-get_elem? s.available_tracks _ _ h)))
    | inr l ↦ rw l (s, refl, h)
  ]

  IsValid-change_view :
      (view : CurrentView) (s : ViewState M D T) → IsValid s → IsValid (View.change_view view s)
  unfolding View.change_view
  IsValid-change_view view s h = elim (Bool-cases (same_view s.current_view view)) [
    | inl e ↦ rw e h
    | inr e ↦ rw e (cleared view)
  ]
    where
      cleared :
          (v : CurrentView)
          → IsValid (record (clear_list v s) { current_view = view; selected_index = 0 })
      cleared modules = h
      cleared stacks = h
      cleared policies = h
      cleared deployments = h

  IsValid-apply : (op : Operation T) (s : ViewState M D T) → IsValid s → Succeeds (apply op s)
  unfolding apply View.move_up View.page_up View.move_down View.page_down
  IsValid-apply move_up s h = (_, refl, ground (arith, h))
  IsValid-apply page_up s h = (_, refl, h)
  IsValid-apply (move_down max_index) s h = (_, refl, ground (arith, h))
  IsValid-apply (page_down max_index) s h = (_, refl, h)
  IsValid-apply (next_track now) s h = IsValid-next_track now s h
  IsValid-apply (previous_track now) s h = IsValid-previous_track now s h
  IsValid-apply (change_view view) s h = (_, refl, IsValid-change_view view s h)

  -- From a state whose track is the selected one of those there are, no sequence of operations
  -- panics, and the track shown at the end is the selected one again.
  pub run_view-IsValid :
      (ops : List (Operation T)) (s : ViewState M D T)
      → get_elem? s.available_tracks s.selected_track_index ≡ some s.current_track
      → (t : ViewState M D T) × (run_view ops s ≡ some t)
        × (get_elem? t.available_tracks t.selected_track_index ≡ some t.current_track)
  unfolding run_view
  run_view-IsValid [] s h = (s, refl, h)
  run_view-IsValid (op ∷ ops) s h =
      let (t, e, ht) = IsValid-apply op s h in
      let (u, e2, hu) = run_view-IsValid ops t ht in (u, rw (e, and_then, e2), hu)

  -- The selected row stays one of those up to `max_index`, whichever way and however far it moves.
  pub move-le :
      (max_index : ℕ) (s : ViewState M D T)
      → s.selected_index ≤ max_index
      → ((View.move_up s).selected_index ≤ max_index)
        × ((View.move_down max_index s).selected_index ≤ max_index)
        × ((View.page_up s).selected_index ≤ max_index)
        × ((View.page_down max_index s).selected_index ≤ max_index)
  unfolding View.move_up View.page_up View.move_down View.page_down
  move-le max_index s h = (ground arith, ground arith, ground arith, ground arith)
