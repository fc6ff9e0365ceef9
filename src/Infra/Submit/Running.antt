-- ===== src/Infra/Submit/Running.antt =====
-- One job at a time: what `submit_claim_job` of env_common/src/logic/api_infra.rs does while a job runs.
use infraweave.Prelude.{
  ℕ, ◌≡◌, refl, sym, ap, ◌∙◌, subst, true, false, Option, none, some, String, List, [], ◌∷◌, ◌==◌,
  arith, Bool-cases, inl, inr,
}
use infraweave.Json.{Value, get, as_str, ◌>>=◌ as and_then}
use infraweave.Cloud.{
  Fetched, fetched, fetch_error, Dependent, ApiInfraPayloadWithVariables, start_runner,
  transact_write, Ran, ran, run_error, CloudHandler,
}
use infraweave.Deployment.Status.{DeploymentResp, Dependency, is_busy, is_final}
use infraweave.Deployment.Handler.{is_plan, is_final_update, minus_one, get_next_drift_check_epoch}
use infraweave.Deployment.Event.{send_event, new}
use infraweave.Deployment.Sending.{
  Sent, ok, failed, panicked, send_deployment, deployment_of, owed, write_all,
  send_deployment-write_all,
}
use infraweave.Deployment.Store.{
  set_deployment, insert_event, transaction, with_existing, commit, mark_drifted, fetch_dependents,
  old_dependencies,
}
use infraweave.Deployment.Dependents.{and_then_send-eq-ok, updated-eq-ok}
use infraweave.Infra.Progress.{is_running, found, is_deployment_in_progress}
use infraweave.Infra.Submit.{
  Clock, job_already_in_progress, started, refused, then_job, request_of, insert_request_event,
  with_job_id, after_run, submit_claim_job,
}

module _ {P S : Type 0} (iter_set : List String → List String) (show_number : ℕ → String)
    (parse_duration : String → Option ℕ) (handler : CloudHandler P S) where
  -- While the job of a deployment runs, or cannot be looked up, no other is started for it: the claim is
  -- refused with that job, and nothing is changed.
  submit_claim_job-refused :
      (clock : Clock) (p : ApiInfraPayloadWithVariables) (s : S) (d : DeploymentResp P)
      → handler.get_deployment p.payload.deployment_id p.payload.environment false s
        ≡ fetched (some d)
      → is_busy d.status ≡ true
      → is_running (handler.get_job_status d.job_id s) ≡ true
      → submit_claim_job iter_set show_number parse_duration handler none clock p s
        ≡ refused (job_already_in_progress d.job_id) s
  unfolding submit_claim_job is_deployment_in_progress found
  submit_claim_job-refused clock p s d e busy running = rw e (rw (busy, running))

  then_job-eq-started :
      (job : String) (o : Sent S) {job' : String} {t : S}
      → then_job job o ≡ started job' t
      → (o ≡ ok t) × (job ≡ job')
  then_job-eq-started job (ok t) h = ground (arith, h)
  then_job-eq-started job (failed t e) h = cc
  then_job-eq-started job panicked h = cc

  with_job_id-eq-started :
      (clock : Clock) (p : ApiInfraPayloadWithVariables) (u : S) (o : Option String) {job : String}
      {t : S}
      → with_job_id iter_set show_number parse_duration handler clock p u o ≡ started job t
      → (o ≡ some job)
        × (insert_request_event iter_set show_number parse_duration handler clock p job u ≡ ok t)
  with_job_id-eq-started clock p u none h = cc
  with_job_id-eq-started clock p u (some j) {job} {t} h =
      let (e, same) = then_job-eq-started j _ h in
      (
        ap some same,
        subst
            (λ k.
              insert_request_event iter_set show_number parse_duration handler clock p k u ≡ ok t)
            same e,
      )

  -- The runner has answered with the job.
  unfoldable pub IsRunBy : ApiInfraPayloadWithVariables → S → String → Value → S → Type 0
  IsRunBy p s job response u =
      (handler.run_function (start_runner p.payload) s ≡ ran response u)
      × (and_then (get response "job_id") as_str ≡ some job)

  after_run-eq-started :
      (clock : Clock) (p : ApiInfraPayloadWithVariables) (r : Ran S) {job : String} {t : S}
      → after_run iter_set show_number parse_duration handler clock p r ≡ started job t
      → (response : Value) × (u : S) × ((r ≡ ran response u)
          × (and_then (get response "job_id") as_str ≡ some job))
        × (insert_request_event iter_set show_number parse_duration handler clock p job u ≡ ok t)
  after_run-eq-started clock p (ran response u) h =
      let (e1, e2) = with_job_id-eq-started clock p u _ h in (response, u, (refl, e1), e2)
  after_run-eq-started clock p (run_error e u) h = cc

  -- Where a job is started, none was in progress, the runner has answered with it, and the request is
  -- recorded.
  pub submit_claim_job-eq-started :
      (clock : Clock) (p : ApiInfraPayloadWithVariables) (s t : S) (job : String)
      → submit_claim_job iter_set show_number parse_duration handler none clock p s ≡ started job t
      → ((is_deployment_in_progress handler p.payload.deployment_id p.payload.environment true false
            s).in_progress
          ≡ false)
        × ((response : Value) × (u : S) × IsRunBy p s job response u
            × (insert_request_event iter_set show_number parse_duration handler clock p job u
                ≡ ok t))
  unfolding submit_claim_job IsRunBy
  submit_claim_job-eq-started clock p s t job h =
      let progress =
        is_deployment_in_progress handler p.payload.deployment_id p.payload.environment true false
          s in
      elim (Bool-cases progress.in_progress) [
        | inl e ↦ ground (arith, h, e)
        | inr e ↦ (
          e,
          after_run-eq-started clock p (handler.run_function (start_runner p.payload) s)
              (ground (arith, h, e)),
        )
      ]

  -- A request is not final, so no drift check is scheduled.
  request-next :
      (p : ApiInfraPayloadWithVariables) (job : String) (now later : ℕ)
      → get_next_drift_check_epoch parse_duration later
          (request_of iter_set show_number parse_duration handler p job now)
        ≡ some minus_one
  unfolding get_next_drift_check_epoch request_of is_final_update is_final new
  request-next p job now later = ground arith

  request : ApiInfraPayloadWithVariables → String → Clock → DeploymentResp P
  unfolding request_of
  request p job clock =
      deployment_of clock.sent minus_one
        (request_of iter_set show_number parse_duration handler p job clock.created)

  request-owed :
      (p : ApiInfraPayloadWithVariables) (job : String) (clock : Clock)
      → (p.payload.command == "plan") ≡ false
      → owed (request_of iter_set show_number parse_duration handler p job clock.created)
        ≡ false ∷ []
  unfolding owed request_of is_plan new
  request-owed p job clock no_plan = ground (arith, no_plan)

  write_one :
      (d : DeploymentResp P) (w : S) {t : S}
      → write_all parse_duration (set_deployment iter_set handler) (false ∷ []) d w ≡ ok t
      → set_deployment iter_set handler d false w ≡ ok t
  unfolding write_all
  write_one d w h =
      let (x, e1, e2) = and_then_send-eq-ok (set_deployment iter_set handler d false w) _ h in
      e1 ∙ e2

  -- Where the command is no plan, the request is stored as the deployment.
  insert_request_event-eq-ok :
      (clock : Clock) (p : ApiInfraPayloadWithVariables) (u t : S) (job : String)
      → (p.payload.command == "plan") ≡ false
      → insert_request_event iter_set show_number parse_duration handler clock p job u ≡ ok t
      → (w : S) × (set_deployment iter_set handler (request p job clock) false w ≡ ok t)
  unfolding insert_request_event request
  insert_request_event-eq-ok clock p u t job no_plan h =
      let r = request_of iter_set show_number parse_duration handler p job clock.created in
      let (w, e1, e2) =
        and_then_send-eq-ok
          (send_event show_number (insert_event show_number handler clock.event_stored)
            clock.event_epoch clock.timestamp r u)
          (send_deployment parse_duration (set_deployment iter_set handler) clock.sent
            clock.drift_from r)
          h in
      let written =
        sym (
          send_deployment-write_all parse_duration (set_deployment iter_set handler) clock.sent
            clock.drift_from r w minus_one (request-next p job clock.created clock.drift_from))
        ∙ e2 in
      let single =
        subst
          (λ flags.
            write_all parse_duration (set_deployment iter_set handler) flags (request p job clock) w
            ≡ ok t)
          (request-owed p job clock no_plan) written in
      (w, write_one (request p job clock) w single)

  with_existing-transaction :
      (d : DeploymentResp P) (w t : S) (o : Fetched (Option (DeploymentResp P)))
      → with_existing iter_set handler d false w o ≡ ok t
      → (existing : List Dependency) × (dependents : List Dependent) × (v : Value)
        × (handler.run_function
              (transact_write (transaction iter_set d false existing dependents))
              w
            ≡ ran v t)
  with_existing-transaction d w t (fetch_error e) h = ground (arith, h)
  with_existing-transaction d w t (fetched old) h =
      committed (old_dependencies old) (fetch_dependents iter_set handler d false w) h
    where
      committed :
          (existing : List Dependency) (o : Fetched (List Dependent))
          → commit iter_set handler d false w existing o ≡ ok t
          → (existing : List Dependency) × (dependents : List Dependent) × (v : Value)
            × (handler.run_function
                  (transact_write (transaction iter_set d false existing dependents))
                  w
                ≡ ran v t)
      committed existing (fetch_error e) h = ground (arith, h)
      committed existing (fetched dependents) h =
          let (x, e1, e2) = and_then_send-eq-ok _ (mark_drifted iter_set handler d false) h in
          let (v, r) = updated-eq-ok _ (e1 ∙ e2) in (existing, dependents, v, r)

  -- In direct mode, once a job is started for a claim that is no plan, the same claim is refused with that
  -- job in each state in which the job runs and the deployment reads as it did right after the start:
  -- where a deployment that a transaction put is read back right after it, as consistent reads do.
  pub submit_claim_job-twice :
      ((d : DeploymentResp P) (existing : List Dependency) (dependents : List Dependent) (w u : S)
          (v : Value)
        → d.deleted ≡ false
        → handler.run_function (transact_write (transaction iter_set d false existing dependents)) w
          ≡ ran v u
        → handler.get_deployment d.deployment_id d.environment false u ≡ fetched (some d))
      → (clock again : Clock) (p : ApiInfraPayloadWithVariables) (s t x : S) (job : String)
      → (p.payload.command == "plan") ≡ false
      → submit_claim_job iter_set show_number parse_duration handler none clock p s ≡ started job t
      → handler.get_deployment p.payload.deployment_id p.payload.environment false x
        ≡ handler.get_deployment p.payload.deployment_id p.payload.environment false t
      → is_running (handler.get_job_status job x) ≡ true
      → submit_claim_job iter_set show_number parse_duration handler none again p x
        ≡ refused (job_already_in_progress job) x
  unfolding request request_of new set_deployment is_busy
  submit_claim_job-twice read_back clock again p s t x job no_plan h same running =
      let (idle, (response, u, ran_by, e1)) = submit_claim_job-eq-started clock p s t job h in
      let (w, e2) = insert_request_event-eq-ok clock p u t job no_plan e1 in
      let d = request p job clock in
      let (existing, dependents, v, e3) = with_existing-transaction d w t _ e2 in
      submit_claim_job-refused again p x d (same ∙ read_back d existing dependents w t v refl e3)
        refl running
