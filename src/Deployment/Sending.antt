-- ===== src/Deployment/Sending.antt =====
-- `send_deployment` of env_common/src/interface/deployment_status_handler.rs, over the store that
-- `set_deployment` writes to, and when the next drift check is scheduled.
use infraweave.Prelude.{
  ℕ, ◌+◌, ◌-◌, ◌<◌, ◌≤◌, ◌≡◌, refl, Bool, true, false, ◌&&◌, Option, none, some, String, List, [],
  ◌∷◌, ◌==◌, if◌then◌else◌, arith, sym,
}
use infraweave.Deployment.Status.{DeploymentResp, ℤ, pos, is_final, is_busy, is_busy-is_final}
use infraweave.Deployment.Handler.{
  StatusHandler, is_plan, is_final_update, get_next_drift_check_epoch, i128_bound, u128_modulus,
  set_event_duration, set_last_event_epoch,
}

-- The result of a call: the store after it, and an error or none. A panic is `panicked`.
pub data Sent (S : Type 0) : Type 0 where
  ok : S → Sent S
  failed : S → String → Sent S
  panicked : Sent S

abbrev pub and_then_send : {S : Type 0} → Sent S → (S → Sent S) → Sent S
and_then_send (ok s) k = k s
and_then_send (failed s e) k = failed s e
and_then_send panicked k = panicked

and_then_send-ok : {S : Type 0} (o : Sent S) → and_then_send o ok ≡ o
and_then_send-ok (ok s) = refl
and_then_send-ok (failed s e) = refl
and_then_send-ok panicked = refl

and_then_send-eq :
    {S : Type 0} (o : Sent S) (f g : S → Sent S)
    → ((s : S) → f s ≡ g s)
    → and_then_send o f ≡ and_then_send o g
and_then_send-eq (ok s) f g h = h s
and_then_send-eq (failed s e) f g h = refl
and_then_send-eq panicked f g h = refl

module _ {P : Type 0} where
  unfoldable pub owed : StatusHandler P → List Bool
  owed h = is_plan h ∷ (if h.is_drift_check && is_final_update h then false ∷ [] else [])

  abbrev pub deployment_of : ℕ → ℤ → StatusHandler P → DeploymentResp P
  deployment_of now next h = record {
    epoch = now;
    deployment_id = h.deployment_id;
    project_id = h.project_id;
    region = h.region;
    status = h.status;
    job_id = h.job_id;
    environment = h.environment;
    module_name = h.module_name;
    module_version = h.module_version;
    module_type = h.module_type;
    module_track = h.module_track;
    variables = h.variables;
    drift_detection = h.drift_detection;
    next_drift_check_epoch = next;
    has_drifted = h.has_drifted;
    output = h.output;
    policy_results = h.policy_results;
    error_text = h.error_text;
    deleted = h.deleted;
    dependencies = h.dependencies;
    initiated_by = h.initiated_by;
    cpu = h.cpu;
    memory = h.memory;
    reference = h.reference;
    tf_resources = h.tf_resources;
  }

module _ {P S : Type 0} (parse_duration : String → Option ℕ)
    (set_deployment : DeploymentResp P → Bool → S → Sent S) where
  abbrev pub write_deployment : StatusHandler P → DeploymentResp P → S → Sent S
  write_deployment h d s =
      and_then_send (set_deployment d (is_plan h) s)
        (λ t. if h.is_drift_check && is_final_update h then set_deployment d false t else ok t)

  abbrev pub send_with : ℕ → StatusHandler P → Option ℤ → S → Sent S
  send_with now h none s = panicked
  send_with now h (some next) s = write_deployment h (deployment_of now next h) s

  -- `get_epoch` is read for the record first, and then for the next drift check.
  unfoldable pub send_deployment : ℕ → ℕ → StatusHandler P → S → Sent S
  unfolding get_next_drift_check_epoch
  send_deployment now later h s =
      send_with now h (get_next_drift_check_epoch parse_duration later h) s

  -- The writes that a handler owes, with each its `is_plan` flag, up to the first that fails
  unfoldable pub write_all : List Bool → DeploymentResp P → S → Sent S
  write_all [] d s = ok s
  write_all (flag ∷ flags) d s = and_then_send (set_deployment d flag s) (write_all flags d)

  -- Where the next drift check is `next`, a handler writes its deployment once, as a plan or not, and
  -- at the end of a drift check once more, not as a plan; what fails first stops it with its error.
  pub send_deployment-write_all :
      (now later : ℕ) (h : StatusHandler P) (s : S) (next : ℤ)
      → get_next_drift_check_epoch parse_duration later h ≡ some next
      → send_deployment now later h s ≡ write_all (owed h) (deployment_of now next h) s
  unfolding send_deployment write_all owed
  send_deployment-write_all now later h s next e = rw e (
      and_then_send-eq _ _ _
        (again (h.is_drift_check && is_final_update h) (deployment_of now next h)))
    where
      again :
          (c : Bool) (d : DeploymentResp P) (t : S)
          → (if c then set_deployment d false t else ok t)
            ≡ write_all (if c then false ∷ [] else []) d t
      again true d t = sym (and_then_send-ok _)
      again false d t = refl

module _ {P : Type 0} (parse_duration : String → Option ℕ) where
  -- A drift check is scheduled only where drift detection is on, the status is final and the command
  -- is not `destroy`.
  pub get_next_drift_check_epoch-pos :
      (now e : ℕ) (h : StatusHandler P)
      → get_next_drift_check_epoch parse_duration now h ≡ some (pos e)
      → (h.drift_detection.enabled ≡ true)
        × (is_busy h.status ≡ false)
        × ((h.command == "destroy") ≡ false)
  unfolding get_next_drift_check_epoch is_final_update
  get_next_drift_check_epoch-pos now e h eq = ground (arith, eq, is_busy-is_final h.status)

  -- Where drift detection is on with an interval of `d` milliseconds, the status is final, the command
  -- is not `destroy` and no overflow is near, the next drift check is `d` milliseconds from now.
  pub get_next_drift_check_epoch-eq :
      (now d : ℕ) (h : StatusHandler P)
      → h.drift_detection.enabled ≡ true
      → (h.drift_detection.interval == "") ≡ false
      → is_final h.status ≡ true
      → (h.command == "destroy") ≡ false
      → parse_duration h.drift_detection.interval ≡ some d
      → now + d < i128_bound
      → get_next_drift_check_epoch parse_duration now h ≡ some (pos (now + d))
  unfolding get_next_drift_check_epoch is_final_update
  get_next_drift_check_epoch-eq now d h on interval final command parsed small =
      rw (on, interval, final, command, parsed) (ground arith)

module _ {P : Type 0} where
  -- An event lasts from the last epoch set to the time when its duration is set, which is not before.
  pub set_event_duration-set_last_event_epoch :
      (start finish : ℕ) (h : StatusHandler P)
      → start ≤ finish
      → finish < u128_modulus
      → (set_event_duration finish (set_last_event_epoch start h)).event_duration ≡ finish - start
  unfolding set_event_duration set_last_event_epoch
  set_event_duration-set_last_event_epoch start finish h le small = ground arith
