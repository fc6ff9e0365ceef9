-- ===== src/Tui/Tests.antt =====
-- The state of cli/src/tui/state at concrete operations.
use infraweave.Prelude.{
  ◌≡◌, refl, inl, ℕ, true, String, List, [], ◌∷◌, some, none, arith, get_elem?,
}
use infraweave.Tui.Events
use infraweave.Tui.Events.{EventsState, browser-lt}
use infraweave.Tui.Detail
use infraweave.Tui.Detail.{DetailState}
use infraweave.Tui.DetailValid
use infraweave.Tui.DetailValid.{run_detail, run_detail-IsValid}
use infraweave.Tui.View
use infraweave.Tui.View.{ViewState}
use infraweave.Tui.ViewValid
use infraweave.Tui.ViewValid.{run_view, run_view-IsValid, move-le}
use infraweave.Tui.Modal
use infraweave.Tui.Modal.{ModalState, show_filter_modal}

abbrev events_shown : EventsState ℕ ℕ ℕ
events_shown = record {
  showing_events = true;
  events_deployment_id = "d1";
  project_id = "p";
  region = "r";
  events_data = 7 ∷ 8 ∷ 9 ∷ [];
  events_browser_index = 1;
  events_scroll = 4;
  events_focus_right = true;
  events_logs = 5 ∷ [];
  events_current_job_id = "job";
  events_log_view = Events.logs;
  change_records = ("job", 3) ∷ [];
}

abbrev detail_operations : List (DetailValid.Operation String String ℕ)
detail_operations =
    DetailValid.show_module "vpc" (1 ∷ 2 ∷ []) "text"
    ∷ DetailValid.browser_down
    ∷ DetailValid.scroll_page_down
    ∷ DetailValid.show_deployment "d1" (1 ∷ []) "text"
    ∷ []

new_detail-IsValid : DetailValid.IsValid {M = String} {D = String} {N = ℕ} Detail.new
unfolding Detail.new Detail.get_max_scroll
new_detail-IsValid = record { item = inl refl; scroll = omega arith; subject = tt }

run_detail-IsValid_example : DetailValid.IsValid (run_detail detail_operations Detail.new)
run_detail-IsValid_example = run_detail-IsValid detail_operations Detail.new new_detail-IsValid

abbrev view_operations : List (ViewValid.Operation ℕ)
view_operations =
    ViewValid.next_track 10
    ∷ ViewValid.page_down 4
    ∷ ViewValid.next_track 20
    ∷ ViewValid.previous_track 30
    ∷ []

new_view-IsValid : ViewValid.IsValid {M = String} {D = String} {T = ℕ} View.new
unfolding View.new
new_view-IsValid = refl

run_view-IsValid_example :
    (t : ViewState String String ℕ) × (run_view view_operations View.new ≡ some t)
    × (get_elem? t.available_tracks t.selected_track_index ≡ some t.current_track)
run_view-IsValid_example = run_view-IsValid view_operations View.new new_view-IsValid

abbrev row_three : ViewState String String ℕ
row_three = record {
  current_view = View.stacks;
  selected_index = 3;
  module_list = [];
  stack_list = "a" ∷ "b" ∷ "c" ∷ "d" ∷ "e" ∷ [];
  deployment_list = [];
  current_track = "dev";
  available_tracks = "dev" ∷ [];
  selected_track_index = 0;
  last_track_switch = none;
}

paged : (View.page_down 4 row_three).selected_index ≡ 4
unfolding View.page_down
paged = refl

abbrev modal : ModalState ℕ
unfolding Modal.new
modal = Modal.new

abbrev regions : List String
regions = "all" ∷ "eu-west-1" ∷ "us-east-1" ∷ []
