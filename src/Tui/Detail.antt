-- ===== src/Tui/Detail.antt =====
-- cli/src/tui/state/detail_state.rs: the detail view. Modules, deployments and navigation items are
-- only stored; the renderer writes the numbers of lines.
use Prim.Native.String.{◌++◌ as str_append}
use infraweave.Prelude.{
  ℕ, ◌+◌, ◌-◌, ◌/◌, Bool, true, false, not, Option, none, some, String, List, [], length, ltb, leb,
  min, if◌then◌else◌,
}
use infraweave.Tui.Events.{saturating_add, page_size}

pub record DetailState (M D N : Type 0) : Type 0 where
  pub showing_detail : Bool
  pub detail_content : String
  pub detail_module : Option M
  pub detail_stack : Option M
  pub detail_deployment : Option D
  pub detail_nav_items : List N
  pub detail_browser_index : ℕ
  pub detail_focus_right : Bool
  pub detail_scroll : ℕ
  pub detail_visible_lines : ℕ
  pub detail_total_lines : ℕ
  pub detail_wrap_text : Bool

module _ {M D N : Type 0} where
  unfoldable pub new : DetailState M D N
  new = record {
    showing_detail = false;
    detail_content = "";
    detail_module = none;
    detail_stack = none;
    detail_deployment = none;
    detail_nav_items = [];
    detail_browser_index = 0;
    detail_focus_right = false;
    detail_scroll = 0;
    detail_visible_lines = 0;
    detail_total_lines = 0;
    detail_wrap_text = true;
  }

  unfoldable pub close : DetailState M D N → DetailState M D N
  close s = record s {
    showing_detail = false;
    detail_scroll = 0;
    detail_browser_index = 0;
    detail_focus_right = false;
    detail_module = none;
    detail_stack = none;
    detail_deployment = none;
    detail_nav_items = [];
    detail_total_lines = 0;
  }

  unfoldable pub show_module : M → List N → String → DetailState M D N → DetailState M D N
  show_module m nav_items content s = record s {
    showing_detail = true;
    detail_module = some m;
    detail_stack = none;
    detail_deployment = none;
    detail_nav_items = nav_items;
    detail_content = content;
    detail_scroll = 0;
    detail_browser_index = 0;
    detail_focus_right = false;
  }

  unfoldable pub show_stack : M → List N → String → DetailState M D N → DetailState M D N
  show_stack stack nav_items content s = record s {
    showing_detail = true;
    detail_stack = some stack;
    detail_module = none;
    detail_deployment = none;
    detail_nav_items = nav_items;
    detail_content = content;
    detail_scroll = 0;
    detail_browser_index = 0;
    detail_focus_right = false;
  }

  unfoldable pub show_deployment : D → List N → String → DetailState M D N → DetailState M D N
  show_deployment deployment nav_items content s = record s {
    showing_detail = true;
    detail_deployment = some deployment;
    detail_module = none;
    detail_stack = none;
    detail_nav_items = nav_items;
    detail_content = content;
    detail_scroll = 0;
    detail_browser_index = 0;
    detail_focus_right = false;
  }

  unfoldable pub show_message : String → DetailState M D N → DetailState M D N
  show_message message s = record s {
    showing_detail = true;
    detail_content = message;
    detail_module = none;
    detail_stack = none;
    detail_deployment = none;
    detail_nav_items = [];
    detail_scroll = 0;
    detail_browser_index = 0;
  }

  unfoldable pub show_error : String → DetailState M D N → DetailState M D N
  unfolding show_message
  show_error error s = show_message (str_append "Error: " error) s

  unfoldable pub get_max_scroll : DetailState M D N → ℕ
  get_max_scroll s =
      if leb s.detail_total_lines s.detail_visible_lines
      then 0
      else saturating_add (s.detail_total_lines - s.detail_visible_lines) (s.detail_total_lines / 5)

  unfoldable pub scroll_up : DetailState M D N → DetailState M D N
  scroll_up s = record s { detail_scroll = s.detail_scroll - 1 }

  unfoldable pub scroll_down : DetailState M D N → DetailState M D N
  unfolding get_max_scroll
  scroll_down s = record s {
    detail_scroll = min (saturating_add s.detail_scroll 1) (get_max_scroll s);
  }

  unfoldable pub scroll_page_up : DetailState M D N → DetailState M D N
  scroll_page_up s = record s { detail_scroll = s.detail_scroll - page_size }

  unfoldable pub scroll_page_down : DetailState M D N → DetailState M D N
  unfolding get_max_scroll
  scroll_page_down s = record s {
    detail_scroll = min (saturating_add s.detail_scroll page_size) (get_max_scroll s);
  }

  unfoldable pub browser_up : DetailState M D N → DetailState M D N
  browser_up s =
      if ltb 0 s.detail_browser_index
      then record s { detail_browser_index = s.detail_browser_index - 1; detail_scroll = 0 }
      else s

  unfoldable pub browser_down : DetailState M D N → DetailState M D N
  browser_down s =
      if ltb s.detail_browser_index (length s.detail_nav_items - 1)
      then record s { detail_browser_index = s.detail_browser_index + 1; detail_scroll = 0 }
      else s

  unfoldable pub toggle_wrap : DetailState M D N → DetailState M D N
  toggle_wrap s = record s { detail_wrap_text = not s.detail_wrap_text }

  unfoldable pub focus_left : DetailState M D N → DetailState M D N
  focus_left s = record s { detail_focus_right = false }

  unfoldable pub focus_right : DetailState M D N → DetailState M D N
  focus_right s = record s { detail_focus_right = true }
