-- ===== src/Ingestion/SqliteState/Replay.antt =====
-- What src/engineering_memory/ingestion/sqlite_state.py remembers of the records that it was told.
use hermes_memory.Base.{
  any, inl, inr, Bool-cases, if◌then◌else◌, ◌>>◌, require, ◌≡◌, refl, sym, ap, subst, ◌∙◌, true,
  false, not, Option, none, some, List, [], ◌∷◌, Str, Str-discrete, ite, map, All, ok, err, Dict,
  lookup, insert, lookup-insert, arith, ℕ_discrete,
}
use hermes_memory.Normalization.Values.{Timestamp, is_surrogate}
use hermes_memory.Normalization.Conversation.{
  Source, chatgpt, claude_chat, claude_code, codex, hermes, source_value,
}
use hermes_memory.Ingestion.State.{
  ImportStatus, imported, skipped, failed, ImportRecord, new_import_record, status_is_recordable,
}
use hermes_memory.Ingestion.SqliteState.{
  state_error, storage_corrupt, not_encodable, Stored, Fault, storage_call, Row, RowKey,
  RowKey-discrete, import_state, Storage, require_file, require_ready, status_text, read_source,
  read_status, satisfies_checks, Clockwork, row_of, key_of, record_parts, read_row, rows_of,
  found_row, find_record, upsert, record_outcome,
}
use hermes_memory.Ingestion.SqliteState.Checks.{starts_with_nul, satisfies_checks_iff}

-- What is assumed of the times: what was written is read as the same instant.
pub record IsClockwork (k : Clockwork) : Type 0 where
  pub utc_of : Timestamp → Timestamp
  pub parses : (t : Timestamp) → k.fromisoformat (k.isoformat t) ≡ some (utc_of t)
  pub same_instant : (t : Timestamp) → (utc_of t).utc ≡ t.utc

-- A storage that is open on its schema, as `initialize` and `validate` leave it.
pub record IsOpen (s : Storage) : Type 0 where
  pub is_ready : s.ready ≡ true
  pub has_file : s.is_file ≡ true
  pub rows : Dict RowKey Row
  pub has_rows : s.tables ≡ import_state 1 rows

read_source-value : (s : Source) → read_source (source_value s) ≡ some s
unfolding read_source Str-discrete ℕ_discrete
read_source-value chatgpt = refl
read_source-value claude_chat = refl
read_source-value claude_code = refl
read_source-value codex = refl
read_source-value hermes = refl

read_status-text : (s : ImportStatus) → read_status (status_text s) ≡ some s
unfolding read_status Str-discrete ℕ_discrete
read_status-text imported = refl
read_status-text skipped = refl
read_status-text failed = refl

-- A telling, with what may fail in it.
abbrev pub Telling : Type 0
Telling = Option Fault × ImportRecord

-- What a telling is answered with.
abbrev pub answer_to : Telling → Stored Unit
answer_to (fault, r) = storage_call fault >> require (not (starts_with_nul r.error)) storage_corrupt

module _ (k : Clockwork) (laws : IsClockwork k) where
  -- A record with its time in UTC.
  abbrev pub in_utc : ImportRecord → ImportRecord
  in_utc r = record r { recorded_at = laws.utc_of r.recorded_at }

  new_record-in_utc :
      (r : ImportRecord) → new_import_record r ≡ ok r → new_import_record (in_utc r) ≡ ok (in_utc r)
  unfolding new_import_record status_is_recordable
  new_record-in_utc r h = ground arith

  read_row-row_of :
      (r : ImportRecord)
      → new_import_record r ≡ ok r
      → read_row k (key_of k r) (row_of k r) ≡ ok (in_utc r)
  unfolding read_row row_of record_parts
  read_row-row_of r h =
      let source = read_source-value r.source in
      let status = read_status-text r.status in
      let at = laws.parses r.recorded_at in
      let valid = new_record-in_utc r h in rw (source, status, at, valid) refl

  recordable : (r : ImportRecord) → new_import_record r ≡ ok r → status_is_recordable r ≡ ok tt
  unfolding new_import_record
  recordable r h = ground arith

  abbrev pub tell_all : List Telling → Storage → Storage
  tell_all [] s = s
  tell_all ((fault, r) ∷ tellings) s = tell_all tellings (record_outcome k fault r s).1

  -- The contract: the last record that was told without a failure for a conversation, and whose error
  -- the database can take, or what was known before.
  abbrev pub remembered : Source → Str → List Telling → Option ImportRecord → Option ImportRecord
  remembered source id [] before = before
  remembered source id ((some fault, r) ∷ tellings) before = remembered source id tellings before
  remembered source id ((none, r) ∷ tellings) before = remembered source id tellings (
      if starts_with_nul r.error
      then before
      else ite (RowKey-discrete (key_of k r) (source_value source, id)) (some (in_utc r)) before)

  abbrev pub answers : List Telling → Storage → List (Stored Unit)
  answers [] s = []
  answers ((fault, r) ∷ tellings) s =
      let (answer, s') = record_outcome k fault r s in answer ∷ answers tellings s'

  found_row-same :
      (r : ImportRecord) (key : RowKey)
      → key_of k r ≡ key
      → new_import_record r ≡ ok r
      → found_row k key (some (row_of k r)) ≡ ok (some (in_utc r))
  unfolding found_row
  found_row-same r key same valid =
      let reads = read_row-row_of r valid in
      subst (λ x. found_row k x (some (row_of k r)) ≡ ok (some (in_utc r))) same
        (rw (found_row, reads) refl)

  find-open :
      (source : Source) (id : Str) (s : Storage) (o : IsOpen s)
      → any is_surrogate id ≡ false
      → find_record k none source id s
        ≡ found_row k
            (source_value source, id)
            (lookup RowKey-discrete (source_value source, id) o.rows)
  unfolding find_record require_ready require_file storage_call rows_of
  find-open source id s o encodable =
      let ready = o.is_ready in
      let file = o.has_file in let rows = o.has_rows in rw (ready, file, rows, encodable) refl

  -- What was asked for can be encoded, since the question was answered.
  found-encodable :
      (source : Source) (id : Str) (s : Storage) (o : IsOpen s) (before : Option ImportRecord)
      → find_record k none source id s ≡ ok before
      → any is_surrogate id ≡ false
  unfolding find_record require_ready require_file storage_call rows_of
  found-encodable source id s o before found = elim (Bool-cases (any is_surrogate id)) [
    | inl not_utf8 ↦
        let ready = o.is_ready in
        let file = o.has_file in
        let rows = o.has_rows in
        let raised : find_record k none source id s ≡ err not_encodable =
          rw (find_record, ready, file, rows, not_utf8) refl in
        absurd (let e = sym raised ∙ found in cc)
    | inr utf8 ↦ utf8
  ]

  record_told :
      (r : ImportRecord) (s : Storage) (o : IsOpen s)
      → new_import_record r ≡ ok r
      → starts_with_nul r.error ≡ false
      → record_outcome k none r s ≡ (
        ok tt,
        record s {
          tables = import_state 1 (insert RowKey-discrete (key_of k r) (row_of k r) o.rows);
        },
      )
  unfolding record_outcome upsert require_ready require_file storage_call rows_of
  record_told r s o valid fits =
      let ready = o.is_ready in
      let file = o.has_file in
      let rows = o.has_rows in
      let checked = (satisfies_checks_iff k r).0 (recordable r valid, fits) in
      let done : upsert k none r s ≡ ok (insert RowKey-discrete (key_of k r) (row_of k r) o.rows) =
        rw (upsert, ready, file, rows, checked) refl in
      rw (record_outcome, done) refl

  record_refused :
      (r : ImportRecord) (s : Storage) (o : IsOpen s)
      → starts_with_nul r.error ≡ true
      → record_outcome k none r s ≡ (err storage_corrupt, s)
  unfolding record_outcome upsert require_ready require_file storage_call rows_of
  record_refused r s o nul = elim (Bool-cases (satisfies_checks (row_of k r))) [
    | inl accepted ↦ absurd (let fits = ((satisfies_checks_iff k r).1 accepted).1 in ground arith)
    | inr refused ↦
        let ready = o.is_ready in
        let file = o.has_file in
        let rows = o.has_rows in
        let done : upsert k none r s ≡ err storage_corrupt =
          rw (upsert, ready, file, rows, refused) refl in
        rw (record_outcome, done) refl
  ]

  record_missed :
      (fault : Fault) (r : ImportRecord) (s : Storage) (o : IsOpen s)
      → record_outcome k (some fault) r s ≡ (err (state_error fault), s)
  unfolding record_outcome upsert require_ready require_file storage_call
  record_missed fault r s o =
      let ready = o.is_ready in
      let file = o.has_file in
      let done : upsert k (some fault) r s ≡ err (state_error fault) =
        rw (upsert, ready, file) refl in
      rw (record_outcome, done) refl

  abbrev open_after :
      (r : ImportRecord) (s : Storage) (o : IsOpen s)
      → IsOpen (record s {
        tables = import_state 1 (insert RowKey-discrete (key_of k r) (row_of k r) o.rows);
      })
  open_after r s o = record {
    is_ready = o.is_ready;
    has_file = o.has_file;
    rows = insert RowKey-discrete (key_of k r) (row_of k r) o.rows;
    has_rows = refl;
  }

  find-told :
      (source : Source) (id : Str) (r : ImportRecord) (s : Storage) (o : IsOpen s)
      (before : Option ImportRecord)
      → new_import_record r ≡ ok r
      → find_record k none source id s ≡ ok before
      → let s' = record s {
        tables = import_state 1 (insert RowKey-discrete (key_of k r) (row_of k r) o.rows);
      } in
        find_record k none source id s'
        ≡ ok (ite (RowKey-discrete (key_of k r) (source_value source, id)) (some (in_utc r)) before)
  find-told source id r s o before valid found =
      let key : RowKey = (source_value source, id) in
      let looked = lookup-insert RowKey-discrete (key_of k r) key (row_of k r) o.rows in
      let encodable = found-encodable source id s o before found in
      let before_row = sym (find-open source id s o encodable) ∙ found in
      find-open source id _ (open_after r s o) encodable
      ∙ ap (found_row k key) looked
      ∙ elim (RowKey-discrete (key_of k r) key)
          as (λ d.
            found_row k key (ite d (some (row_of k r)) (lookup RowKey-discrete key o.rows))
            ≡ ok (ite d (some (in_utc r)) before)) [
              | yes same ↦ found_row-same r key same valid
              | no other ↦ before_row
            ]

  -- A storage that is open on its schema keeps the contract: after any tellings of records that the
  -- model accepts, it answers for a conversation with the last record that was told of it without a
  -- failure, its time in UTC, or, if there is none, as before. A telling is accepted if nothing failed
  -- in it, and otherwise answered with the error of the failure; but one whose error starts with a
  -- NUL is refused as corrupt, and not remembered. Nothing fails in the question.
  pub find-remembers :
      (source : Source) (id : Str) (tellings : List Telling) (s : Storage)
      (before : Option ImportRecord)
      → IsOpen s
      → All (λ (t : Telling). new_import_record t.1 ≡ ok t.1) tellings
      → find_record k none source id s ≡ ok before
      → (find_record k none source id (tell_all tellings s)
          ≡ ok (remembered source id tellings before))
        × (answers tellings s ≡ map answer_to tellings)
  unfolding storage_call
  find-remembers source id [] s before o valid found = (found, refl)
  find-remembers source id ((none, r) ∷ tellings) s before o (valid, rest) found =
      elim (Bool-cases (starts_with_nul r.error)) [
        | inl nul ↦
            let refused = record_refused r s o nul in
            let (finds, answered) = find-remembers source id tellings s before o rest found in
            (
              rw (refused, nul) finds,
              rw (refused, nul) (ap (λ as'. err storage_corrupt ∷ as') answered),
            )
        | inr fits ↦
            let told = record_told r s o valid fits in
            let (finds, answered) =
              find-remembers source id tellings _ _ (open_after r s o) rest
                (find-told source id r s o before valid found) in
            (rw (told, fits) finds, rw (told, fits) (ap (λ as'. ok tt ∷ as') answered))
      ]
  find-remembers source id ((some fault, r) ∷ tellings) s before o (valid, rest) found =
      let missed = record_missed fault r s o in
      let (finds, answered) = find-remembers source id tellings s before o rest found in
      (rw missed finds, rw missed (ap (λ as'. err (state_error fault) ∷ as') answered))
