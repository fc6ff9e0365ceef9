-- ===== src/Tui/Derived.antt =====
-- What the views read off their states: `get_grouped_events` of cli/src/tui/state/events_state.rs and
-- `calculate_logs_section_index` of cli/src/tui/state/detail_state.rs.
use infraweave.Prelude.{
  ℕ, ◌+◌, Bool, false, not, Option, none, some, String, List, [], ◌∷◌, ◌++◌, ◌==◌, ltb, is_empty,
  if◌then◌else◌,
}
use infraweave.Json.{Value, object, is_empty_map}
use infraweave.Deployment.Status.{DeploymentResp}
use infraweave.Deployment.Event.{EventData}
use infraweave.Tui.Events.{EventsState}
use infraweave.Tui.Detail.{DetailState}

abbrev pub Job : Type 0 → Type 0
Job P = String × List (EventData P)

abbrev section : Bool → ℕ
section shown = if shown then 1 else 0

abbrev has_fields : Value → Bool
has_fields (object fields) = not (is_empty_map fields)
has_fields _ = false

module _ {P : Type 0} where
  abbrev add_event : EventData P → List (Job P) → List (Job P)
  add_event e [] = (e.job_id, e ∷ []) ∷ []
  add_event e ((job_id, events) ∷ jobs) =
      let rest = add_event e jobs in
      if job_id == e.job_id then (job_id, events ++ (e ∷ [])) ∷ jobs else (job_id, events) ∷ rest

  abbrev grouped : List (Job P) → List (EventData P) → List (Job P)
  grouped jobs [] = jobs
  grouped jobs (e ∷ events) = grouped (add_event e jobs) events

  abbrev epoch_of : Job P → ℕ
  epoch_of (job_id, []) = 0
  epoch_of (job_id, e ∷ events) = e.epoch

  -- `sort_by` is stable: a job goes behind those of its epoch that stood before it.
  abbrev insert_job : Job P → List (Job P) → List (Job P)
  insert_job job [] = job ∷ []
  insert_job job (other ∷ jobs) =
      let rest = insert_job job jobs in
      if ltb (epoch_of job) (epoch_of other) then other ∷ rest else job ∷ other ∷ jobs

  abbrev sort_jobs : List (Job P) → List (Job P)
  sort_jobs [] = []
  sort_jobs (job ∷ jobs) = insert_job job (sort_jobs jobs)

  -- `iter` is the order of the HashMap.
  unfoldable pub get_grouped_events :
      {L C : Type 0} → (List (Job P) → List (Job P)) → EventsState (EventData P) L C → List (Job P)
  get_grouped_events iter s = sort_jobs (iter (grouped [] s.events_data))

  abbrev logs_index : Option (DeploymentResp P) → ℕ
  logs_index none = 0
  logs_index (some d) =
      1
      + section (has_fields d.variables)
      + section (has_fields d.output)
      + section (not (is_empty d.dependencies))
      + section (not (is_empty d.policy_results))

  unfoldable pub calculate_logs_section_index :
      {M N : Type 0} → DetailState M (DeploymentResp P) N → ℕ
  calculate_logs_section_index s = logs_index s.detail_deployment
