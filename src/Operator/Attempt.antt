-- ===== src/Operator/Attempt.antt =====
-- The object after a failed apply job with attempts left, as operator/src/operator.rs leaves it.
use infraweave.Prelude.{
  ◌≡◌, refl, ap, ◌∙◌, ℕ, ◌<◌, ◌^◌, true, false, ◌||◌, ◌&&◌, ◌==◌, Option, none, some, String, arith,
  ltb, eq_iff, if◌then◌else◌, if-eq-left, Bool-cases, inl, inr,
}
use infraweave.Json.{is_null, Value, as_str, and_then, unwrap_or}
use infraweave.Deployment.Status.{ℤ, pos, negsuc}
use infraweave.Operator.{
  Resource, in_status, status_merged, merge_value, status_field, job_id_of, as_i64, contains_text,
  generation_of, last_generation_of, retry_count_of, from_i64,
}
use infraweave.Operator.Step.{Context}
use infraweave.Operator.Status.{update_fields, retry_fields}
use infraweave.Operator.Merge.{overlay, status_field-status_merged}
use infraweave.Operator.Retry.{labelled, succ_int, is_failed}
use infraweave.Operator.Apply.{is_stuck_state, is_unchanged, is_positive, int_eq}

module _ {Y P K S : Type 0} (ctx : Context Y P K S) (kind : String) where
  -- The object after both patches that follow a failed job
  unfoldable pub after_attempt :
      Resource → String → String → String → String → String → String → Resource
  after_attempt r name status update now message job_id =
      status_merged
        (status_merged r (
          in_status
            (update_fields ctx kind r name (labelled "Apply" status) update now message job_id)))
        (in_status (retry_fields ctx kind (succ_int (retry_count_of r))))

  field-after_attempt :
      (r : Resource) (name status update now message job_id key : String)
      → status_field (after_attempt r name status update now message job_id) key
        ≡ overlay (retry_fields ctx kind (succ_int (retry_count_of r))) key (
            overlay
              (update_fields ctx kind r name (labelled "Apply" status) update now message job_id)
              key
              (status_field r key))
  unfolding after_attempt
  field-after_attempt r name status update now message job_id key =
      status_field-status_merged
        (status_merged r (
          in_status
            (update_fields ctx kind r name (labelled "Apply" status) update now message job_id)))
        (retry_fields ctx kind (succ_int (retry_count_of r))) key
      ∙ ap (overlay (retry_fields ctx kind (succ_int (retry_count_of r))) key) (
          status_field-status_merged r
            (update_fields ctx kind r name (labelled "Apply" status) update now message job_id) key)

  pub job_id-after_attempt :
      (r : Resource) (name status update now message job_id : String)
      → job_id_of (after_attempt r name status update now message job_id) ≡ ""
  unfolding overlay merge_value
  job_id-after_attempt r name status update now message job_id =
      ap (λ o. unwrap_or (and_then o as_str) "")
        (field-after_attempt r name status update now message job_id "jobId")

  not_stuck :
      (status : String)
      → is_failed status ≡ true
      → (contains_text (labelled "Apply" status) "initiated"
          || contains_text (labelled "Apply" status) "in progress")
        ≡ false
  not_stuck status h = elim (Bool-cases (status == "failed")) [
    | inl e ↦ rw ((eq_iff status "failed").0 e) refl
    | inr e ↦ rw ((eq_iff status "error").0 (ground (arith, h, e))) refl
  ]

  pub not_stuck-after_attempt :
      (r : Resource) (name status update now message job_id : String)
      → is_failed status ≡ true
      → is_stuck_state ctx kind (after_attempt r name status update now message job_id) ≡ false
  unfolding overlay merge_value
  not_stuck-after_attempt r name status update now message job_id h =
      ap
        (λ o.
          contains_text (unwrap_or (and_then o as_str) "") "initiated"
          || contains_text (unwrap_or (and_then o as_str) "") "in progress")
        (field-after_attempt r name status update now message job_id "resourceStatus")
      ∙ not_stuck status h

  kept_int :
      (z : ℤ) (old : Option Value)
      → (if is_null (from_i64 z) then none else some (merge_value old (from_i64 z)))
        ≡ some (from_i64 z)
  unfolding merge_value
  kept_int (pos n) old = refl
  kept_int (negsuc n) old = refl

  generation-after_attempt :
      (r : Resource) (n : ℕ) (name status update now message job_id : String)
      → generation_of r ≡ pos n
      → n < 2 ^ 63
      → last_generation_of (after_attempt r name status update now message job_id) ≡ pos n
  unfolding overlay
  generation-after_attempt r n name status update now message job_id e high =
      ap (λ o. unwrap_or (and_then o as_i64) (pos 0))
        (field-after_attempt r name status update now message job_id "lastGeneration"
          ∙ kept_int (generation_of r) (status_field r "lastGeneration"))
      ∙ ap (λ g. unwrap_or (as_i64 (from_i64 g)) (pos 0)) e
      ∙ ap (λ o. unwrap_or o (pos 0))
          (if-eq-left (ltb n (2 ^ 63)) (some (pos n)) none (ground (arith, high)))

  pub unchanged-after_attempt :
      (r : Resource) (n : ℕ) (name status update now message job_id : String)
      → generation_of r ≡ pos n
      → 0 < n
      → n < 2 ^ 63
      → is_unchanged ctx kind (after_attempt r name status update now message job_id) ≡ true
  unfolding after_attempt
  unchanged-after_attempt r n name status update now message job_id e low high =
      ap (λ g. int_eq g (generation_of r) && is_positive g)
        (generation-after_attempt r n name status update now message job_id e high)
      ∙ ap (λ g. int_eq (pos n) g && is_positive (pos n)) e
      ∙ ground (arith, low)
