-- ===== src/Tui/Modal.antt =====
-- cli/src/tui/state/modal_state.rs: the versions, confirmation and filter modals, with the actions of
-- cli/src/tui/app.rs. The versions are only stored.
use infraweave.Prelude.{
  ℕ, ◌+◌, ◌-◌, Bool, true, false, ◌||◌, Option, none, some, String, List, [], ◌∷◌, ◌==◌, ltb,
  if◌then◌else◌,
}

pub data FilterType : Type 0 where
  no_filter project region : FilterType

pub data PendingAction : Type 0 where
  no_action load_modules load_stacks load_deployments : PendingAction
  show_module_detail show_stack_detail show_deployment_detail : ℕ → PendingAction
  show_module_versions show_stack_versions : ℕ → PendingAction
  load_modal_versions : PendingAction
  show_deployment_events : ℕ → PendingAction
  load_job_logs : String → PendingAction
  load_change_record : String → String → String → String → PendingAction
  reapply_deployment destroy_deployment : ℕ → PendingAction
  reload_current_deployment_detail save_claim_to_file run_claim_from_builder : PendingAction

pub record ModalState (V : Type 0) : Type 0 where
  pub showing_versions_modal : Bool
  pub modal_module_name : String
  pub modal_track : String
  pub modal_track_index : ℕ
  pub modal_available_tracks : List String
  pub modal_versions : List V
  pub modal_selected_index : ℕ
  pub showing_confirmation : Bool
  pub confirmation_message : String
  pub confirmation_deployment_index : Option ℕ
  pub confirmation_action : PendingAction
  pub showing_filter_modal : Bool
  pub filter_type : FilterType
  pub filter_options : List String
  pub filter_selected_index : ℕ

abbrev pub after : Option ℕ → Option ℕ
after none = none
after (some i) = some (i + 1)

-- `iter().position(|x| x == &selection)`
abbrev pub position : String → List String → Option ℕ
position selection [] = none
position selection (x ∷ xs) =
    let rest = position selection xs in if x == selection then some 0 else after rest

abbrev pub or_first : Option ℕ → ℕ
or_first none = 0
or_first (some i) = i

abbrev pub selected_position : Option String → List String → ℕ
selected_position none options = 0
selected_position (some selection) options = or_first (position selection options)

module _ {V : Type 0} where
  unfoldable pub new : ModalState V
  new = record {
    showing_versions_modal = false;
    modal_module_name = "";
    modal_track = "";
    modal_track_index = 0;
    modal_available_tracks = [];
    modal_versions = [];
    modal_selected_index = 0;
    showing_confirmation = false;
    confirmation_message = "";
    confirmation_deployment_index = none;
    confirmation_action = no_action;
    showing_filter_modal = false;
    filter_type = no_filter;
    filter_options = [];
    filter_selected_index = 0;
  }

  unfoldable pub show_filter_modal :
      FilterType → List String → Option String → ModalState V → ModalState V
  show_filter_modal filter options current_selection s = record s {
    showing_filter_modal = true;
    filter_type = filter;
    filter_selected_index = selected_position current_selection options;
    filter_options = options;
  }

  unfoldable pub close_filter_modal : ModalState V → ModalState V
  close_filter_modal s = record s {
    showing_filter_modal = false;
    filter_type = no_filter;
    filter_options = [];
    filter_selected_index = 0;
  }

  unfoldable pub show_versions_modal :
      String → String → ℕ → List String → ModalState V → ModalState V
  show_versions_modal module_name track track_index available_tracks s = record s {
    showing_versions_modal = true;
    modal_module_name = module_name;
    modal_track = track;
    modal_track_index = track_index;
    modal_available_tracks = available_tracks;
    modal_selected_index = 0;
  }

  unfoldable pub close_versions_modal : ModalState V → ModalState V
  close_versions_modal s = record s {
    showing_versions_modal = false;
    modal_versions = [];
    modal_module_name = "";
    modal_available_tracks = [];
    modal_selected_index = 0;
  }

  unfoldable pub show_confirmation : String → ℕ → PendingAction → ModalState V → ModalState V
  show_confirmation message deployment_index action s = record s {
    showing_confirmation = true;
    confirmation_message = message;
    confirmation_deployment_index = some deployment_index;
    confirmation_action = action;
  }

  unfoldable pub close_confirmation : ModalState V → ModalState V
  close_confirmation s = record s {
    showing_confirmation = false;
    confirmation_message = "";
    confirmation_deployment_index = none;
    confirmation_action = no_action;
  }

  unfoldable pub modal_move_up : ModalState V → ModalState V
  modal_move_up s =
      if ltb 0 s.modal_selected_index
      then record s { modal_selected_index = s.modal_selected_index - 1 }
      else s

  unfoldable pub modal_move_down : ℕ → ModalState V → ModalState V
  modal_move_down max_index s =
      if ltb s.modal_selected_index max_index
      then record s { modal_selected_index = s.modal_selected_index + 1 }
      else s

  unfoldable pub is_any_modal_showing : ModalState V → Bool
  is_any_modal_showing s = s.showing_versions_modal || s.showing_confirmation
