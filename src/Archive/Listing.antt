-- ===== src/Archive/Listing.antt =====
-- `iter_document_ids` and `_Identifiers` of src/engineering_memory/archive/local.py.
use hermes_memory.Base.{
  Bool, true, false, ◌&&◌, Option, none, some, List, [], ◌∷◌, Str, codes, str_eq, holds, length,
  drop, ◌-◌, take, if◌then◌else◌, ok, err, ltb, not,
}
use hermes_memory.Normalization.Conversation.{Source, Source-discrete}
use hermes_memory.Archive.{
  ArchiveError, archive_unavailable, not_enumerated, boundary_error, os_error, file_not_found,
  value_error, Codec,
}
use hermes_memory.Archive.Disk.{Disk, Faults, check_directory}
use hermes_memory.Archive.Read.{read}

-- What `os.scandir` gives: it may raise, and so may the step to each entry.
pub data Scan : Type 0 where
  missing broken : Scan
  found : List (Option Str) → Scan

-- `_Identifiers`
pub record Listing : Type 0 where
  pub entries : Option (List (Option Str))
  pub done : Bool

pub data Step : Type 0 where
  stops : Step
  yields : Str → Step
  raises : ArchiveError → Step

abbrev pub fresh : Listing
fresh = record { entries = none; done = false }

abbrev pub closed : Listing
closed = record { entries = some []; done = true }

abbrev pub open_at : List (Option Str) → Listing
open_at es = record { entries = some es; done = false }

-- `name.startswith(".") and name.endswith(".tmp")`
unfoldable pub is_temporary : Str → Bool
is_temporary name =
    str_eq (take 1 name) (codes ".")
    && (not (ltb (length name) 4) && str_eq (drop (length name - 4) name) (codes ".tmp"))

-- `self._source is None or ...source == self._source`
unfoldable pub is_wanted : Option Source → Source → Bool
is_wanted none s = true
is_wanted (some wanted) s = holds (Source-discrete s wanted)

module _ (c : Codec) (source : Option Source) (f : Faults) (d : Disk) where
  -- The `while` loop of `__next__`. An error of `_read` is no OSError and closes nothing.
  unfoldable pub next_entry : List (Option Str) → Step × Listing
  next_entry [] = (stops, closed)
  next_entry (none ∷ rest) = (raises (archive_unavailable not_enumerated none), closed)
  next_entry (some name ∷ rest) =
      let later = next_entry rest in
      if is_temporary name then later else elim (read c f d name none) [
        | err e ↦ (raises e, open_at rest)
        | ok envelope ↦
            if is_wanted source envelope.enriched.conversation.source
            then (yields envelope.envelope_id, open_at rest)
            else later
      ]

  -- The start of the listing, which is done if it fails.
  unfoldable pub start : Scan → Step × Listing
  unfolding next_entry
  start scan = elim (check_directory f d) [
    | err (boundary_error e) ↦ (raises e, record fresh { done = true })
    | err file_not_found ↦ (raises (archive_unavailable not_enumerated none), closed)
    | err os_error ↦ (raises (archive_unavailable not_enumerated none), closed)
    | err value_error ↦ (raises (archive_unavailable not_enumerated none), closed)
    | ok _ ↦ elim scan [
      | missing ↦ (stops, closed)
      | broken ↦ (raises (archive_unavailable not_enumerated none), closed)
      | found es ↦ next_entry es
    ]
  ]

  -- `__next__`
  unfoldable pub next : Scan → Listing → Step × Listing
  unfolding start
  next scan l =
      if l.done then (stops, l) else elim l.entries [ none ↦ start scan | some es ↦ next_entry es ]
