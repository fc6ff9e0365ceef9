-- ===== src/Tui/DerivedTests.antt =====
-- Events by their jobs, and the index of the logs (cli/src/tui/state).
use infraweave.Prelude.{◌≡◌, refl, ℕ, String, [], ◌∷◌, some, false}
use infraweave.Json.{null, bool, object, field, end}
use infraweave.Deployment.Status.{successful}
use infraweave.Deployment.Handler.{minus_one}
use infraweave.Deployment.Event.{EventData}
use infraweave.Infra.Manifest.{default_drift_detection}
use infraweave.Infra.Tests.{busy}
use infraweave.Tui.Events
use infraweave.Tui.Events.{EventsState}
use infraweave.Tui.Detail
use infraweave.Tui.Derived.{get_grouped_events, calculate_logs_section_index}

abbrev event_at : String → ℕ → EventData (Unit {0})
event_at job_id epoch = record {
  deployment_id = "d";
  project_id = "p";
  region = "eu";
  environment = "e";
  event = "apply";
  epoch = epoch;
  error_text = "";
  id = "";
  job_id = job_id;
  metadata = null;
  drift_detection = default_drift_detection;
  next_drift_check_epoch = minus_one;
  has_drifted = false;
  module_name = "m";
  module_version = "1";
  name = "n";
  status = successful;
  timestamp = "t";
  output = null;
  policy_results = [];
  initiated_by = "u";
  event_duration = 0;
}

abbrev events : EventsState (EventData (Unit {0})) (Unit {0}) (Unit {0})
unfolding Events.new
events = record Events.new { events_data = event_at "a" 1 ∷ event_at "b" 5 ∷ event_at "a" 9 ∷ [] }

two_jobs :
    get_grouped_events (λ jobs. jobs) events
    ≡ ("b", event_at "b" 5 ∷ []) ∷ ("a", event_at "a" 1 ∷ event_at "a" 9 ∷ []) ∷ []
unfolding get_grouped_events events Events.new
two_jobs = refl

with_variables :
    calculate_logs_section_index {M = Unit {0}} {N = Unit {0}} (record Detail.new {
      detail_deployment = some (record busy { variables = object (field "a" (bool false) end) });
    })
    ≡ 2
unfolding calculate_logs_section_index Detail.new
with_variables = refl
