-- ===== src/Operator/Retry.antt =====
-- What reconciling (operator/src/operator.rs) does after a failed job: three attempts more, then a day of
-- cooling down. Applying and destroying do the same under their labels.
use infraweave.Prelude.{
  ℕ, zero, suc, ◌+◌, ◌-◌, ◌*◌, ◌/◌, ◌%◌, ◌^◌, Bool, true, false, Option, none, some, String, [],
  ◌∷◌, ◌==◌, ◌||◌, concat, ltb, leb, eqb, if◌then◌else◌,
}
use infraweave.Json.{number, pos_int, string, Fields, end, field}
use infraweave.Deployment.Status.{ℤ, pos, negsuc, DeploymentResp}
use infraweave.Infra.Progress.{InProgress, is_deployment_in_progress}
use infraweave.Operator.{Resource, in_status, last_failure_epoch_of, deployment_id_of}
use infraweave.Operator.Step.{World, Context, Action, requeue, Step, ◌>>◌, pure}
use infraweave.Operator.Status.{
  with_ref, patch_status, update_resource_status, update_retry_count, reset_retry_count,
  fetch_job_logs,
}

abbrev pub succ_int : ℤ → ℤ
succ_int (pos n) = pos (n + 1)
succ_int (negsuc zero) = pos 0
succ_int (negsuc (suc n)) = negsuc n

abbrev pub lt_int : ℤ → ℕ → Bool
lt_int (pos n) m = ltb n m
lt_int (negsuc n) m = true

-- `as u32`
abbrev as_u32 : ℤ → ℕ
as_u32 (pos n) = n % 2 ^ 32
as_u32 (negsuc n) = 2 ^ 32 - 1 - n % 2 ^ 32

-- `2_u64.pow`, which wraps around in a release build
abbrev power_of_two : ℕ → ℕ
power_of_two e = if ltb e 64 then 2 ^ e else 0

-- Seconds: ten minutes, doubled with each attempt
abbrev pub backoff : ℤ → ℕ
backoff retry_count = 10 * power_of_two (as_u32 retry_count) % 2 ^ 64 * 60 % 2 ^ 64

abbrev pub max_retries : ℕ
max_retries = 3

abbrev pub twenty_four_hours_ms : ℕ
twenty_four_hours_ms = 24 * 60 * 60 * 1000

abbrev pub labelled : String → String → String
labelled label status = concat (label ∷ " - " ∷ status ∷ [])

abbrev pub is_failed : String → Bool
is_failed status = status == "failed" || status == "error"

-- Rust's `max`
abbrev pub max : ℕ → ℕ → ℕ
max a b = if leb a b then b else a

module _ {Y P K S : Type 0} (ctx : Context Y P K S) (kind : String) where
  -- Checked less than 25 seconds ago, only the logs are looked at.
  abbrev pub is_recent : Option ℤ → Bool
  is_recent none = false
  is_recent (some seconds) = lt_int seconds 25

  unfoldable pub should_do_full_check : String → World K S → Bool
  should_do_full_check last_check w =
      if last_check == ""
      then true
      else if is_recent (ctx.seconds_since last_check w)
      then false
      else true

  -- What the cloud says of the deployment of an object
  abbrev pub found_for : String → Resource → World K S → InProgress P
  found_for environment r w =
      is_deployment_in_progress ctx.handler (deployment_id_of r) environment false true w.cloud

  unfoldable pub update_logs : Resource → String → World K S → Step (World K S) Action
  unfolding patch_status
  update_logs resource job_id w =
      let log_str = fetch_job_logs ctx kind job_id w in
      with_ref ctx kind resource
        (λ ref.
          patch_status ctx kind ref (in_status (field "logs" (string log_str) end))
          >> pure (requeue 10))
        w

  -- The time of the deployment that was found, or now
  abbrev pub update_time_of : Option (DeploymentResp P) → World K S → String
  update_time_of (some d) w = ctx.epoch_to_timestamp d.epoch
  update_time_of none w = ctx.get_timestamp w

  abbrev pub now_epoch : World K S → ℕ
  now_epoch w = ctx.get_epoch w % 2 ^ 64

  abbrev pub elapsed : ℕ → World K S → ℕ
  elapsed since w = (now_epoch w + 2 ^ 64 - since) % 2 ^ 64

  abbrev pub exhausted_fields : ℕ → String → String → Fields → Fields
  exhausted_fields epoch label status extra = field "lastFailureEpoch" (number (pos_int epoch)) (
      field "resourceStatus"
        (string (concat (labelled label status ∷ " (max retries exhausted)" ∷ [])))
        (field "jobId" (string "") extra))

  abbrev pub cooling_fields : String → String → Fields
  cooling_fields label status = field "jobId" (string "") (
      field "resourceStatus" (string (concat (labelled label status ∷ " (cooling down)" ∷ []))) end)

  -- No attempt is left: `extra` is what the status gets besides at the first time.
  unfoldable pub cool_down :
      String → Fields → Resource → String → World K S → Step (World K S) Action
  unfolding patch_status reset_retry_count
  cool_down label extra resource status w =
      let since = last_failure_epoch_of resource in
      let passed = elapsed since w in
      if eqb since 0
      then with_ref ctx kind resource
          (λ ref.
            patch_status ctx kind ref
              (in_status (exhausted_fields (now_epoch w) label status extra))
            >> pure (requeue (24 * 60 * 60)))
          w
      else if leb twenty_four_hours_ms passed
      then (reset_retry_count ctx kind resource >> pure (requeue 10)) w
      else with_ref ctx kind resource
          (λ ref.
            patch_status ctx kind ref (in_status (cooling_fields label status))
            >> pure (requeue (max ((twenty_four_hours_ms - passed) / 1000) 60)))
          w

  unfoldable pub after_failure :
      String
      → Fields
      → ℤ
      → Resource
      → InProgress P
      → String
      → String
      → World K S
      → Step (World K S) Action
  unfolding cool_down update_resource_status update_retry_count
  after_failure label extra retry_count resource found message job_id w =
      if lt_int retry_count max_retries
      then (update_resource_status ctx kind resource (labelled label found.status)
              (update_time_of found.deployment w) message job_id
            >> (update_retry_count ctx kind resource (succ_int retry_count)
                >> pure (requeue (backoff retry_count))))
          w
      else cool_down label extra resource found.status w
