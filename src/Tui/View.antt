-- ===== src/Tui/View.antt =====
-- cli/src/tui/state/view_state.rs: the lists of modules, stacks and deployments, and the track shown.
-- What the lists hold is only stored; an instant is a parameter. An index out of range panics: `none`.
use infraweave.Prelude.{
  ℕ, ◌+◌, ◌-◌, ◌%◌, Bool, true, false, not, Option, none, some, String, List, [], ◌∷◌, length,
  get_elem?, is_empty, ltb, min, if◌then◌else◌,
}

pub data CurrentView : Type 0 where
  modules stacks policies deployments : CurrentView

pub record ViewState (M D T : Type 0) : Type 0 where
  pub current_view : CurrentView
  pub selected_index : ℕ
  pub module_list : List M
  pub stack_list : List M
  pub deployment_list : List D
  pub current_track : String
  pub available_tracks : List String
  pub selected_track_index : ℕ
  pub last_track_switch : Option T

abbrev pub page_size : ℕ
page_size = 10

abbrev pub usize_modulus : ℕ
usize_modulus = 18446744073709551616

-- `==` of the derived PartialEq
abbrev pub same_view : CurrentView → CurrentView → Bool
same_view modules modules = true
same_view stacks stacks = true
same_view policies policies = true
same_view deployments deployments = true
same_view _ _ = false

module _ {M D T : Type 0} where
  unfoldable pub new : ViewState M D T
  new = record {
    current_view = modules;
    selected_index = 0;
    module_list = [];
    stack_list = [];
    deployment_list = [];
    current_track = "all";
    available_tracks = "all" ∷ "stable" ∷ "rc" ∷ "beta" ∷ "alpha" ∷ "dev" ∷ [];
    selected_track_index = 0;
    last_track_switch = none;
  }

  unfoldable pub move_up : ViewState M D T → ViewState M D T
  move_up s =
      if ltb 0 s.selected_index then record s { selected_index = s.selected_index - 1 } else s

  unfoldable pub move_down : ℕ → ViewState M D T → ViewState M D T
  move_down max_index s =
      if ltb s.selected_index max_index
      then record s { selected_index = s.selected_index + 1 }
      else s

  unfoldable pub page_up : ViewState M D T → ViewState M D T
  page_up s = record s { selected_index = s.selected_index - page_size }

  unfoldable pub page_down : ℕ → ViewState M D T → ViewState M D T
  page_down max_index s = record s {
    selected_index = min ((s.selected_index + page_size) % usize_modulus) max_index;
  }

  abbrev pub switch_track : T → ℕ → ViewState M D T → Option String → Option (ViewState M D T)
  switch_track now i s none = none
  switch_track now i s (some track) =
      some
        (record s { selected_track_index = i; current_track = track; last_track_switch = some now })

  -- Without tracks, `len() - 1` panics where overflow is checked, and the index does where it is not.
  unfoldable pub next_track : T → ViewState M D T → Option (ViewState M D T)
  next_track now s =
      if is_empty s.available_tracks
      then none
      else if ltb s.selected_track_index (length s.available_tracks - 1)
      then switch_track now (s.selected_track_index + 1) s
          (get_elem? s.available_tracks (s.selected_track_index + 1))
      else some s

  unfoldable pub previous_track : T → ViewState M D T → Option (ViewState M D T)
  previous_track now s =
      if ltb 0 s.selected_track_index
      then switch_track now (s.selected_track_index - 1) s
          (get_elem? s.available_tracks (s.selected_track_index - 1))
      else some s

  abbrev pub clear_list : CurrentView → ViewState M D T → ViewState M D T
  clear_list modules s = record s { module_list = [] }
  clear_list stacks s = record s { stack_list = [] }
  clear_list deployments s = record s { deployment_list = [] }
  clear_list policies s = s

  unfoldable pub change_view : CurrentView → ViewState M D T → ViewState M D T
  change_view view s =
      if not (same_view s.current_view view)
      then record (clear_list view s) { current_view = view; selected_index = 0 }
      else s
