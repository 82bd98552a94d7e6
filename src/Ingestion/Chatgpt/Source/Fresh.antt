-- ===== src/Ingestion/Chatgpt/Source/Fresh.antt =====
-- src/engineering_memory/ingestion/chatgpt/source.py: the identifiers that a reader has seen.
use hermes_memory.Base.{
  ◌≡◌, refl, ap, ℕ, sym, subst, Option, Result, inl, inr, none, some, List, [], ◌∷◌, ◌++◌, length,
  take, drop, Str, ok, err, Member, Distinct, Bool-cases,
}
use hermes_memory.Json.Utf8.{EncodeError, encode}
use hermes_memory.Normalization.Conversation.{Conversation}
use hermes_memory.Ingestion.Chatgpt.Unreadable.{Readable, UnreadableRecord}
use hermes_memory.Ingestion.Chatgpt.Thread.{is_member}
use hermes_memory.Ingestion.Chatgpt.Thread.Links.{not-Member}
use hermes_memory.Ingestion.Chatgpt.Values.{Times}
use hermes_memory.Ingestion.Chatgpt.Record.{ReadConversation, parse_value}
use hermes_memory.Ingestion.Pipeline.Run.{Event, item, format_error, broken, interrupted}
use hermes_memory.Ingestion.Chatgpt.Source.{
  is_caught, converted, ended, ExportRecord, Failure, unreadable, unavailable, stopped, File,
  identifier, unreadable_event, failure_event, encoded_event, convert_read, convert, read_records,
  read_files, read_export,
}

-- The identifiers of the conversations that are yielded.
abbrev pub yielded : List Event → List Str
yielded [] = []
yielded (item c ∷ es) = c.conversation.source_id ∷ yielded es
yielded (e ∷ es) = yielded es

-- What is yielded is not among the identifiers seen, and is seen from there on.
abbrev Fresh : List Str → List Event → Type 0
Fresh seen [] = Unit
Fresh seen (item c ∷ es) =
    (¬ Member c.conversation.source_id seen) × Fresh (c.conversation.source_id ∷ seen) es
Fresh seen (e ∷ es) = Fresh seen es

Member-also :
    (kept seen : List Str) (y : Str)
    → ((x : Str) → Member x kept → Member x seen)
    → (x : Str) → Member x (y ∷ kept)
    → Member x (y ∷ seen)
Member-also kept seen y h x (inl e) = inl e
Member-also kept seen y h x (inr m) = inr (h x m)

Fresh-fewer :
    (es : List Event) (kept seen : List Str)
    → ((x : Str) → Member x kept → Member x seen)
    → Fresh seen es
    → Fresh kept es
Fresh-fewer [] kept seen h f = tt
Fresh-fewer (item c ∷ es) kept seen h f =
    (λ m. f.0 (h _ m), Fresh-fewer es (_ ∷ kept) (_ ∷ seen) (Member-also kept seen _ h) f.1)
Fresh-fewer (format_error s ∷ es) kept seen h f = Fresh-fewer es kept seen h f
Fresh-fewer (broken ∷ es) kept seen h f = Fresh-fewer es kept seen h f
Fresh-fewer (interrupted ∷ es) kept seen h f = Fresh-fewer es kept seen h f

encoded_event-Fresh :
    (c : Conversation) (bytes : Result EncodeError (List ℕ)) (seen : List Str) (es : List Event)
    → ¬ Member c.source_id seen
    → Fresh (c.source_id ∷ seen) es
    → Fresh seen (encoded_event c bytes ∷ es)
encoded_event-Fresh c (ok bytes) seen es n f = (n, f)
encoded_event-Fresh c (err e) seen es n f =
    Fresh-fewer es seen (c.source_id ∷ seen) (λ x m. inr m) f

convert_read-Fresh :
    (raw : Str) (c : Conversation) (seen : List Str) (es : List Event)
    → Fresh (convert_read raw c seen).1 es
    → Fresh seen ((convert_read raw c seen).0 ∷ es)
unfolding convert_read
convert_read-Fresh raw c seen es = elim (Bool-cases (is_member c.source_id seen)) [
  | inl e ↦ rw e (λ f. f)
  | inr e ↦ rw e (encoded_event-Fresh c (encode raw) seen es (not-Member c.source_id seen e))
]

unreadable_event-Fresh :
    (u : UnreadableRecord) (subject : Option Str) (seen : List Str) (es : List Event)
    → Fresh seen es
    → Fresh seen (unreadable_event u subject ∷ es)
unreadable_event-Fresh u subject seen es f = elim (Bool-cases (is_caught u)) [
  | inl e ↦ rw e f
  | inr e ↦ rw e f
]

converted-Fresh :
    (r : ExportRecord) (seen : List Str) (read : Readable ReadConversation) (es : List Event)
    → Fresh (converted r seen read).1 es
    → Fresh seen ((converted r seen read).0 ∷ es)
converted-Fresh r seen (ok read) es f = convert_read-Fresh r.raw read.0 seen es f
converted-Fresh r seen (err u) es f = unreadable_event-Fresh u (identifier r.value) seen es f

convert-Fresh :
    (times : Times) (r : ExportRecord) (seen : List Str) (es : List Event)
    → Fresh (convert times r seen).1 es
    → Fresh seen ((convert times r seen).0 ∷ es)
unfolding convert
convert-Fresh times r seen es = converted-Fresh r seen (parse_value times r.value) es

read_records-Fresh :
    (times : Times) (rs : List ExportRecord) (seen : List Str) (es : List Event)
    → Fresh (read_records times rs seen).1 es
    → Fresh seen ((read_records times rs seen).0 ++ es)
unfolding read_records
read_records-Fresh times [] seen es f = f
read_records-Fresh times (r ∷ rs) seen es f =
    convert-Fresh times r seen _ (read_records-Fresh times rs (convert times r seen).1 es f)

failure_event-Fresh : (e : Failure) (seen : List Str) → Fresh seen (failure_event e ∷ [])
failure_event-Fresh unreadable seen = tt
failure_event-Fresh unavailable seen = tt
failure_event-Fresh stopped seen = tt

ended-Fresh :
    (failure : Option Failure) (seen : List Str) (rest : List Event)
    → Fresh seen rest
    → Fresh seen (ended failure rest)
ended-Fresh none seen rest f = f
ended-Fresh (some e) seen rest f = failure_event-Fresh e seen

read_files-Fresh :
    (times : Times) (fs : List File) (seen : List Str) → Fresh seen (read_files times fs seen)
unfolding read_files
read_files-Fresh times [] seen = tt
read_files-Fresh times (f ∷ fs) seen =
    let after = (read_records times f.records seen).1 in
    read_records-Fresh times f.records seen _
      (ended-Fresh f.failure after _ (read_files-Fresh times fs after))

-- What is fresh is distinct, and none of it was seen before.
Fresh-seen :
    (es : List Event) (seen : List Str) (x : Str)
    → Fresh seen es
    → Member x (yielded es)
    → ¬ Member x seen
Fresh-seen [] seen x f m = absurd m
Fresh-seen (item c ∷ es) seen x f (inl e) = subst (λ y. ¬ Member y seen) (sym e) f.0
Fresh-seen (item c ∷ es) seen x f (inr m) =
    λ s. Fresh-seen es (c.conversation.source_id ∷ seen) x f.1 m (inr s)
Fresh-seen (format_error s ∷ es) seen x f m = Fresh-seen es seen x f m
Fresh-seen (broken ∷ es) seen x f m = Fresh-seen es seen x f m
Fresh-seen (interrupted ∷ es) seen x f m = Fresh-seen es seen x f m

Fresh-Distinct : (es : List Event) (seen : List Str) → Fresh seen es → Distinct (yielded es)
Fresh-Distinct [] seen f = tt
Fresh-Distinct (item c ∷ es) seen f = (
  λ m. Fresh-seen es (_ ∷ seen) c.conversation.source_id f.1 m (inl refl),
  Fresh-Distinct es (_ ∷ seen) f.1,
)
Fresh-Distinct (format_error s ∷ es) seen f = Fresh-Distinct es seen f
Fresh-Distinct (broken ∷ es) seen f = Fresh-Distinct es seen f
Fresh-Distinct (interrupted ∷ es) seen f = Fresh-Distinct es seen f

-- Reading an export, whatever its files hold and wherever it fails, yields no two conversations
-- with the same identifier.
pub read_export-Distinct :
    (times : Times) (export : Result Failure (List File))
    → Distinct (yielded (read_export times export))
unfolding read_export
read_export-Distinct times (ok files) =
    Fresh-Distinct (read_files times files []) [] (read_files-Fresh times files [])
read_export-Distinct times (err e) =
    Fresh-Distinct (failure_event e ∷ []) [] (failure_event-Fresh e [])

-- A record that cannot be read gives its own event at its own place, and what comes from the other
-- records of its file, before it and behind it, is what they give without it.
pub read_records-skips :
    (times : Times) (front back : List ExportRecord) (r : ExportRecord) (u : UnreadableRecord)
    (seen : List Str)
    → parse_value times r.value ≡ err u
    → (read_records times (front ++ r ∷ back) seen).0
      ≡ take (length front) (read_records times (front ++ back) seen).0
        ++ unreadable_event u (identifier r.value)
          ∷ drop (length front) (read_records times (front ++ back) seen).0
unfolding read_records convert
read_records-skips times [] back r u seen h = rw h refl
read_records-skips times (f ∷ front) back r u seen h =
    ap (λ es. (convert times f seen).0 ∷ es)
      (read_records-skips times front back r u (convert times f seen).1 h)
