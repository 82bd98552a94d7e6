-- ===== src/Archive/Drain.antt =====
-- A whole listing, and what it yields (src/engineering_memory/archive/local.py).
use hermes_memory.Base.{
  ◌≡◌, refl, ap, ◌∙◌, ℕ, suc, zero, ◌+◌, true, Option, none, some, List, [], ◌∷◌, ◌++◌, Str, subst,
  length, if◌then◌else◌, ok, err, arith, inl, inr, Bool-cases, Option-cases, ◌<◌, Result-cases,
}
use hermes_memory.Normalization.Conversation.{Source}
use hermes_memory.Normalization.Provenance.{EnrichedConversation}
use hermes_memory.Archive.{archive_unavailable, not_enumerated, Codec}
use hermes_memory.Archive.Disk.{Disk, Faults, check_directory}
use hermes_memory.Archive.Read.{read, load}
use hermes_memory.Archive.Listing.{
  Scan, missing, broken, found, Listing, Step, stops, yields, raises, fresh, open_at, is_temporary,
  is_wanted, next_entry, start, next,
}
use hermes_memory.Archive.Intact.{read-loads}

module _ (c : Codec) (f : Faults) (d : Disk) (source : Option Source) where
  -- An id that a listing yields, at any point of it, can be loaded, and is of the source that was
  -- asked for, if one was.
  next_entry-loads :
      (es : List (Option Str)) (id : Str)
      → (next_entry c source f d es).0 ≡ yields id
      → (e : EnrichedConversation) × (load c f d id ≡ ok e)
        × (is_wanted source e.conversation.source ≡ true)
  unfolding next_entry
  next_entry-loads [] id h = absurd (ground arith)
  next_entry-loads (none ∷ rest) id h = absurd (ground arith)
  next_entry-loads (some name ∷ rest) id h =
      let later = next_entry-loads rest id in
      elim (Bool-cases (is_temporary name)) [
        | inl temporary ↦ later (ground arith)
        | inr lasting ↦ elim (Result-cases (read c f d name none)) [
          | inr (raised, failed) ↦ absurd (ground arith)
          | inl (envelope, good) ↦
              elim (Bool-cases (is_wanted source envelope.enriched.conversation.source)) [
                | inr unwanted ↦ later (ground arith)
                | inl wanted ↦
                    let same : envelope.envelope_id ≡ id = ground arith in
                    (
                      envelope.enriched,
                      subst (λ i. load c f d i ≡ ok envelope.enriched) same
                          (read-loads c f d name good),
                      wanted,
                    )
              ]
        ]
      ]

  start-loads :
      (scan : Scan) (id : Str)
      → (start c source f d scan).0 ≡ yields id
      → (e : EnrichedConversation) × (load c f d id ≡ ok e)
        × (is_wanted source e.conversation.source ≡ true)
  unfolding start
  start-loads missing id h = absurd (ground arith)
  start-loads broken id h = absurd (ground arith)
  start-loads (found es) id h = next_entry-loads es id (ground arith)

  -- An id that a listing yields, at any point of it, can be loaded, and is of the source that the
  -- listing is restricted to, if it is, for as long as the files do not change and the same calls
  -- fail.
  pub next-loads :
      (scan : Scan) (l : Listing) (id : Str)
      → (next c source f d scan l).0 ≡ yields id
      → (e : EnrichedConversation) × (load c f d id ≡ ok e)
        × (is_wanted source e.conversation.source ≡ true)
  unfolding next
  next-loads scan l id h = elim (Bool-cases l.done) [
    | inl done ↦ absurd (ground arith)
    | inr going ↦ elim (Option-cases l.entries) [
      | inl unstarted ↦ start-loads scan id (ground arith)
      | inr (es, started) ↦ next_entry-loads es id (ground arith)
    ]
  ]

  abbrev prepend : Step → Option (List Step) → Option (List Step)
  prepend s none = none
  prepend s (some steps) = some (s ∷ steps)

  -- All that the calls of `__next__` give until one stops, if that comes within so many calls.
  unfoldable pub drain : ℕ → Scan → Listing → Option (List Step)
  drain zero scan l = none
  drain (suc n) scan l =
      let (s, l') = next c source f d scan l in
      let rest = drain n scan l' in
      elim s [
        | stops ↦ some []
        | yields id ↦ prepend (yields id) rest
        | raises e ↦ prepend (raises e) rest
      ]

  -- What a record contributes to a listing: its id, if it is wanted, or its error.
  abbrev pub contribution : Str → List Step
  contribution name = if is_temporary name then [] else elim (read c f d name none) [
    | err e ↦ raises e ∷ []
    | ok envelope ↦
        if is_wanted source envelope.enriched.conversation.source
        then yields envelope.envelope_id ∷ []
        else []
  ]

  abbrev pub contributions : List (Option Str) → List Step
  contributions [] = []
  contributions (none ∷ rest) = raises (archive_unavailable not_enumerated none) ∷ []
  contributions (some name ∷ rest) = contribution name ++ contributions rest

  drain-open :
      (scan : Scan) (es : List (Option Str)) (n : ℕ)
      → length es < n
      → drain n scan (open_at es) ≡ some (contributions es)
  unfolding drain next next_entry
  drain-open scan es zero h = absurd (omega (arith, h))
  drain-open scan [] (suc n) h = refl
  drain-open scan (none ∷ rest) (suc zero) h = absurd (omega (arith, h))
  drain-open scan (none ∷ rest) (suc (suc n)) h = refl
  drain-open scan (some name ∷ rest) (suc n) h =
      let later = drain-open scan rest n (omega (arith, h)) in
      let skipped = drain-open scan rest (suc n) (omega (arith, h)) in
      ground (arith, later, skipped)

  drain-started :
      (es : List (Option Str)) (n : ℕ)
      → check_directory f d ≡ ok tt
      → drain (suc n) (found es) fresh ≡ drain (suc n) (found es) (open_at es)
  unfolding drain next start
  drain-started es n h =
      let same : next c source f d (found es) fresh ≡ next c source f d (found es) (open_at es) =
        rw (next, start, h) refl in
      ap
        (λ (r : Step × Listing). elim r.0 [
          | stops ↦ some []
          | yields id ↦ prepend (yields id) (drain n (found es) r.1)
          | raises e ↦ prepend (raises e) (drain n (found es) r.1)
        ])
        same

  -- A whole listing ends, as long as files and failures stay the same: from a directory that can be
  -- listed, as many calls as there are entries and one more give, in the order of the directory and
  -- up to an entry that cannot be read off, the id of each record that can be read and is of the
  -- source, the error of each that cannot, and nothing for temporary files, and then the end.
  pub drain-fresh :
      (es : List (Option Str))
      → check_directory f d ≡ ok tt
      → drain (length es + 1) (found es) fresh ≡ some (contributions es)
  drain-fresh es h =
      ap (λ n. drain n (found es) fresh) (omega arith)
      ∙ drain-started es (length es) h
      ∙ drain-open (found es) es (suc (length es)) (omega arith)
