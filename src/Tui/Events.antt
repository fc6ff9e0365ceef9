-- ===== src/Tui/Events.antt =====
-- cli/src/tui/state/events_state.rs: the view of a deployment's events. The events, the log lines and
-- the change records are only stored and cleared.
use infraweave.Prelude.{
  ℕ, ◌+◌, ◌-◌, ◌≤◌, ◌<◌, ◌≡◌, refl, Bool, true, false, not, ◌&&◌, String, List, [], arith, ltb, min,
  if◌then◌else◌,
}

pub data EventsLogView : Type 0 where
  events logs changelog : EventsLogView

pub record EventsState (E L C : Type 0) : Type 0 where
  pub showing_events : Bool
  pub events_deployment_id : String
  pub project_id : String
  pub region : String
  pub events_data : List E
  pub events_browser_index : ℕ
  pub events_scroll : ℕ
  pub events_focus_right : Bool
  pub events_logs : List L
  pub events_current_job_id : String
  pub events_log_view : EventsLogView
  pub change_records : List (String × C)

abbrev pub u16_max : ℕ
u16_max = 65535

-- `saturating_add` of two u16
abbrev pub saturating_add : ℕ → ℕ → ℕ
saturating_add a b = min (a + b) u16_max

abbrev pub page_size : ℕ
page_size = 10

abbrev pub following : EventsLogView → EventsLogView
following events = logs
following logs = changelog
following changelog = events

abbrev pub preceding : EventsLogView → EventsLogView
preceding events = changelog
preceding logs = events
preceding changelog = logs

module _ {E L C : Type 0} where
  unfoldable pub new : EventsState E L C
  new = record {
    showing_events = false;
    events_deployment_id = "";
    project_id = "";
    region = "";
    events_data = [];
    events_browser_index = 0;
    events_scroll = 0;
    events_focus_right = false;
    events_logs = [];
    events_current_job_id = "";
    events_log_view = events;
    change_records = [];
  }

  unfoldable pub show_events : String → String → String → EventsState E L C → EventsState E L C
  show_events deployment_id project_id region s = record s {
    showing_events = true;
    events_deployment_id = deployment_id;
    project_id = project_id;
    region = region;
    events_browser_index = 0;
    events_scroll = 0;
  }

  unfoldable pub close : EventsState E L C → EventsState E L C
  close s = record s {
    showing_events = false;
    events_deployment_id = "";
    events_data = [];
    events_browser_index = 0;
    events_scroll = 0;
    events_focus_right = false;
    events_logs = [];
    events_current_job_id = "";
    events_log_view = events;
    change_records = [];
  }

  abbrev pub select : ℕ → EventsState E L C → EventsState E L C
  select i s = record s { events_browser_index = i; events_scroll = 0; events_log_view = events }

  unfoldable pub browser_up : EventsState E L C → EventsState E L C
  browser_up s = if ltb 0 s.events_browser_index then select (s.events_browser_index - 1) s else s

  unfoldable pub browser_down : ℕ → EventsState E L C → EventsState E L C
  browser_down max_index s =
      if ltb 0 max_index && ltb s.events_browser_index (max_index - 1)
      then select (s.events_browser_index + 1) s
      else s

  unfoldable pub scroll_up : EventsState E L C → EventsState E L C
  scroll_up s = record s { events_scroll = s.events_scroll - 1 }

  unfoldable pub scroll_down : ℕ → EventsState E L C → EventsState E L C
  scroll_down max_scroll s = record s {
    events_scroll = min (saturating_add s.events_scroll 1) max_scroll;
  }

  unfoldable pub scroll_page_up : EventsState E L C → EventsState E L C
  scroll_page_up s = record s { events_scroll = s.events_scroll - page_size }

  unfoldable pub scroll_page_down : ℕ → EventsState E L C → EventsState E L C
  scroll_page_down max_scroll s = record s {
    events_scroll = min (saturating_add s.events_scroll page_size) max_scroll;
  }

  unfoldable pub toggle_focus : EventsState E L C → EventsState E L C
  toggle_focus s = record s { events_focus_right = not s.events_focus_right }

  unfoldable pub focus_left : EventsState E L C → EventsState E L C
  focus_left s = record s { events_focus_right = false }

  unfoldable pub focus_right : EventsState E L C → EventsState E L C
  focus_right s = record s { events_focus_right = true }

  unfoldable pub next_log_view : EventsState E L C → EventsState E L C
  next_log_view s = record s { events_log_view = following s.events_log_view; events_scroll = 0 }

  unfoldable pub previous_log_view : EventsState E L C → EventsState E L C
  previous_log_view s = record s {
    events_log_view = preceding s.events_log_view;
    events_scroll = 0;
  }

  -- The selected event stays one of the `max_index` that are shown, and moving keeps it there.
  pub browser-lt :
      (s : EventsState E L C) (max_index : ℕ)
      → s.events_browser_index < max_index
      → ((browser_up s).events_browser_index < max_index)
        × ((browser_down max_index s).events_browser_index < max_index)
        × ((browser_up (browser_down max_index s)).events_browser_index ≤ s.events_browser_index)
  unfolding browser_up browser_down
  browser-lt s max_index h = ground arith

  -- What one deployment left behind is gone when the next is shown after a close.
  pub show_events-close :
      (s t : EventsState E L C) (d p r : String)
      → show_events d p r (close s) ≡ show_events d p r (close t)
  unfolding show_events close
  show_events-close s t d p r = refl

  -- Stepping forward and back returns to the same log view, with the scroll at the top.
  pub previous_log_view-next_log_view :
      (s : EventsState E L C) → previous_log_view (next_log_view s) ≡ record s { events_scroll = 0 }
  unfolding previous_log_view next_log_view
  previous_log_view-next_log_view s = ground arith
