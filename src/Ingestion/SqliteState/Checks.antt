-- ===== src/Ingestion/SqliteState/Checks.antt =====
-- The CHECK constraints of src/engineering_memory/ingestion/sqlite_state.py, beside the rules of the model
-- of src/engineering_memory/ingestion/state.py.
use hermes_memory.Base.{
  zero, suc, ltb, ◌==◌, ◌&&◌, ◌≡◌, ◌↔◌, refl, sym, ◌∙◌, Bool, true, false, not, Option, none, some,
  [], ◌∷◌, Str, Str-discrete, is_empty, ok, arith, ℕ_discrete,
}
use hermes_memory.Ingestion.State.{
  ImportStatus, imported, skipped, failed, ImportRecord, status_is_recordable,
}
use hermes_memory.Ingestion.SqliteState.{sqlite_length, satisfies_checks, Clockwork, row_of}

-- An error is read by the database as a text that is not empty: it does not start with a NUL.
abbrev pub starts_with_nul : Option Str → Bool
starts_with_nul none = false
starts_with_nul (some []) = false
starts_with_nul (some (c ∷ cs)) = c == 0

-- The table accepts a row by the status and the error of its record.
checks_of : ImportStatus → Option Str → Bool
checks_of imported none = true
checks_of imported (some e) = false
checks_of skipped e = false
checks_of failed none = false
checks_of failed (some e) = not (is_empty e) && not (starts_with_nul (some e))

length-check :
    (e : Str) → ltb 0 (sqlite_length e) ≡ (not (is_empty e) && not (starts_with_nul (some e)))
unfolding sqlite_length
length-check [] = refl
length-check (zero ∷ cs) = refl
length-check (suc c ∷ cs) = ground arith

satisfies-checks_of :
    (k : Clockwork) (r : ImportRecord) (status : ImportStatus) (error : Option Str)
    → r.status ≡ status
    → r.error ≡ error
    → satisfies_checks (row_of k r) ≡ checks_of status error
unfolding satisfies_checks row_of checks_of Str-discrete ℕ_discrete
satisfies-checks_of k r imported none h e = rw (h, e) refl
satisfies-checks_of k r imported (some x) h e = rw (h, e) refl
satisfies-checks_of k r skipped none h e = rw h refl
satisfies-checks_of k r skipped (some x) h e = rw h refl
satisfies-checks_of k r failed none h e = rw (h, e) refl
satisfies-checks_of k r failed (some x) h e = rw (h, e) (length-check x)

recordable-checks_of :
    (r : ImportRecord)
    → (status_is_recordable r ≡ ok tt) × (starts_with_nul r.error ≡ false)
      ↔ (checks_of r.status r.error ≡ true)
unfolding status_is_recordable checks_of
recordable-checks_of r = (λ h. ground arith, λ h. (ground arith, ground arith))

-- The constraints of the table accept the row of a record exactly if the model's rules on its status
-- and its error accept the record and its error, if it has one, does not start with a NUL.
pub satisfies_checks_iff :
    (k : Clockwork) (r : ImportRecord)
    → (status_is_recordable r ≡ ok tt) × (starts_with_nul r.error ≡ false)
      ↔ (satisfies_checks (row_of k r) ≡ true)
satisfies_checks_iff k r =
    let same = satisfies-checks_of k r r.status r.error refl refl in
    let iff = recordable-checks_of r in (λ h. same ∙ iff.0 h, λ h. iff.1 (sym same ∙ h))
