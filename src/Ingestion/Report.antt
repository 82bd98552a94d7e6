-- ===== src/Ingestion/Report.antt =====
-- src/engineering_memory/ingestion/report.py: stages, outcomes and the report of a run.
use hermes_memory.Base.{
  ℕ, ◌+◌, ◌==◌, ◌≡◌, ◌↔◌, refl, All, Bool, true, false, not, ◌&&◌, ◌||◌, Option, none, List, [],
  ◌∷◌, Str, codes, count, length, is_some, if◌then◌else◌, arith,
}
use hermes_memory.Normalization.Values.{Timestamp}
use hermes_memory.Normalization.Conversation.{Source}
use hermes_memory.Ingestion.State.{ImportStatus, is_imported, is_skipped, is_failed}

pub data Stage : Type 0 where
  source hash state_read sanitize classify enrich archive retain state_write : Stage

abbrev pub stage_value : Stage → Str
stage_value source = codes "source"
stage_value hash = codes "hash"
stage_value state_read = codes "state_read"
stage_value sanitize = codes "sanitize"
stage_value classify = codes "classify"
stage_value enrich = codes "enrich"
stage_value archive = codes "archive"
stage_value retain = codes "retain"
stage_value state_write = codes "state_write"

pub data RunStatus : Type 0 where
  success partial_success failure : RunStatus

pub record ConversationOutcome : Type 0 where
  pub source : Source
  pub source_id : Option Str
  pub document_id : Option Str
  pub status : ImportStatus
  pub completed_at : Timestamp
  pub error : Option Stage
  pub state_record_failed : Bool

-- `_failure_has_diagnostics`: true where the validator accepts.
unfoldable pub has_diagnostics : ConversationOutcome → Bool
has_diagnostics o =
    (is_failed o.status && is_some o.error || not (is_failed o.status) && not (is_some o.error))
    && (not o.state_record_failed || is_failed o.status)

pub record RunReport : Type 0 where
  pub outcomes : List ConversationOutcome
  pub terminal_error : Option Stage

abbrev pub imported_count : RunReport → ℕ
imported_count r = count (λ o. is_imported o.status) r.outcomes

abbrev pub skipped_count : RunReport → ℕ
skipped_count r = count (λ o. is_skipped o.status) r.outcomes

abbrev pub failed_count : RunReport → ℕ
failed_count r = count (λ o. is_failed o.status) r.outcomes

unfoldable pub run_status : RunReport → RunStatus
run_status r =
    if failed_count r == 0 && not (is_some r.terminal_error)
    then success
    else if not (imported_count r == 0) || not (skipped_count r == 0)
    then partial_success
    else failure

-- Every outcome is counted in one of the three totals, and in one only.
pub counts-partition :
    (outcomes : List ConversationOutcome)
    → count (λ o. is_imported o.status) outcomes
        + count (λ o. is_skipped o.status) outcomes
        + count (λ o. is_failed o.status) outcomes
      ≡ length outcomes
counts-partition [] = omega arith
counts-partition (o ∷ os) = ground (arith, counts-partition os)

count-none :
    {A : Type 0} (p : A → Bool) (xs : List A) → (count p xs ≡ 0) ↔ All (λ x. p x ≡ false) xs
count-none p [] = (λ h. tt, λ h. refl)
count-none p (x ∷ xs) =
    let (there, back) = count-none p xs in (λ h. ground (arith, there), λ h. ground (arith, back))

-- No conversation failed, and the source did not break.
abbrev pub IsClean : RunReport → Type 0
IsClean r = All (λ o. is_failed o.status ≡ false) r.outcomes × (r.terminal_error ≡ none)

abbrev pub AllFailed : RunReport → Type 0
AllFailed r = All (λ o. is_failed o.status ≡ true) r.outcomes

none_done :
    (outcomes : List ConversationOutcome)
    → (count (λ o. is_imported o.status) outcomes + count (λ o. is_skipped o.status) outcomes ≡ 0)
      ↔ All (λ o. is_failed o.status ≡ true) outcomes
none_done [] = (λ h. tt, λ h. refl)
none_done (o ∷ os) =
    let (there, back) = none_done os in (λ h. ground (arith, there), λ h. ground (arith, back))

-- A run is a success exactly when no conversation failed and the source did not break, and a failure
-- exactly when it is no success and every conversation failed.
pub run_status_lem :
    (r : RunReport)
    → ((run_status r ≡ success) ↔ IsClean r)
      × ((run_status r ≡ failure) ↔ (¬ IsClean r) × AllFailed r)
unfolding run_status
run_status_lem r =
    let (clean, dirty) = count-none (λ (o : ConversationOutcome). is_failed o.status) r.outcomes in
    let (there, back) = none_done r.outcomes in
    (
      (λ h. ground (arith, clean), λ h. ground (arith, dirty)),
      (λ h. ground (arith, dirty, there), λ h. ground (arith, clean, back)),
    )
