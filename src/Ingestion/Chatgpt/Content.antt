-- ===== src/Ingestion/Chatgpt/Content.antt =====
-- src/engineering_memory/ingestion/chatgpt/content.py: the outcome of one message.
use hermes_memory.Base.{
  Bool, true, false, ◌&&◌, ◌||◌, Option, none, some, List, [], ◌∷◌, ◌++◌, Str, str_eq, codes,
  is_empty, if◌then◌else◌, ltb, ◌==◌, ok, err, ◌>>=◌,
}
use hermes_memory.Json.{Json, bool, str, obj, Fields, get, entries, fields_or_empty, items_or_empty}
use hermes_memory.Normalization.Conversation.{
  Role, NonTextKind, image, file, audio, other, NonTextPart, new_non_text_part, Message,
  new_message,
}
use hermes_memory.Ingestion.Chatgpt.Unreadable.{Readable, type_error, validated_as}
use hermes_memory.Ingestion.Chatgpt.Values.{
  Times, export_time, Hashed, hashed, field_of, read_role, text_of, string, join_filled, newline,
  join_lines, text, unlisted, unhashable,
}

-- `ReadMessage`: a turn with its unrecognized types, or the reason it was omitted.
pub data ReadMessage : Type 0 where
  turn : Message → List Str → ReadMessage
  hidden hidden_reasoning : ReadMessage

-- `_Parts`
pub record Parts : Type 0 where
  pub texts : List Str
  pub markers : List NonTextPart
  pub unrecognized : List Str

abbrev no_parts : Parts
no_parts = record { texts = []; markers = []; unrecognized = [] }

abbrev with_text : Str → Parts → Parts
with_text s p = record p { texts = s ∷ p.texts }

abbrev with_marker : NonTextPart → Parts → Parts
with_marker m p = record p { markers = m ∷ p.markers }

abbrev pub marker : NonTextKind → Option Str → Readable NonTextPart
marker kind name = validated_as (new_non_text_part (record { kind = kind; name = name }))

abbrev pub name_of : Hashed → Str
name_of (text s) = if is_empty s then codes "unknown" else s
name_of v = codes "unknown"

-- An `OTHER` marker before what follows, and its name.
abbrev pub with_unknown : Str → Readable Parts → Readable Parts
with_unknown name rest = do
  m ← marker other (some name)
  p ← rest
  ok (record p { markers = m ∷ p.markers; unrecognized = name ∷ p.unrecognized })

abbrev pub known_part : Str → Fields → Readable Parts → Readable Parts
known_part s fs rest =
    if str_eq s (codes "image_asset_pointer")
    then (do m ← marker image none; p ← rest; ok (with_marker m p))
    else if str_eq s (codes "audio_asset_pointer")
        || str_eq s (codes "real_time_user_audio_video_asset_pointer")
    then (do m ← marker audio none; p ← rest; ok (with_marker m p))
    else if str_eq s (codes "audio_transcription")
    then (do
      p ← rest
      ok (
          if is_empty (string fs (codes "text"))
          then p
          else with_text (string fs (codes "text")) p))
    else with_unknown (name_of (text s)) rest

abbrev pub typed_part : Hashed → Fields → Readable Parts → Readable Parts
typed_part (text s) fs rest = known_part s fs rest
typed_part unhashable fs rest = err type_error
typed_part unlisted fs rest = with_unknown (codes "unknown") rest

-- `_parts`
unfoldable pub read_parts : List Json → Readable Parts
read_parts [] = ok no_parts
read_parts (str s ∷ vs) = do p ← read_parts vs; ok (with_text s p)
read_parts (obj fs ∷ vs) = typed_part (hashed (get (codes "content_type") fs)) fs (read_parts vs)
read_parts (v ∷ vs) = with_unknown (codes "unknown") (read_parts vs)

-- The texts of `sorted(content.items())`, without the type.
unfoldable pub key_lt : Str → Str → Bool
key_lt [] [] = false
key_lt [] (d ∷ ds) = true
key_lt (c ∷ cs) [] = false
key_lt (c ∷ cs) (d ∷ ds) = ltb c d || (c == d && key_lt cs ds)

unfoldable pub insert_entry : Str × Json → List (Str × Json) → List (Str × Json)
insert_entry e [] = e ∷ []
insert_entry e (f ∷ fs) = if key_lt f.0 e.0 then f ∷ insert_entry e fs else e ∷ f ∷ fs

unfoldable pub sort_entries : List (Str × Json) → List (Str × Json)
sort_entries [] = []
sort_entries (e ∷ es) = insert_entry e (sort_entries es)

abbrev pub context_texts : List (Str × Json) → List Str
context_texts [] = []
context_texts ((key, value) ∷ rest) =
    if str_eq key (codes "content_type")
    then context_texts rest
    else text_of (some value) ∷ context_texts rest

-- `_TEXTUAL`
unfoldable pub textual : Str → Fields → Option Str
textual s c =
    if str_eq s (codes "code") || str_eq s (codes "execution_output")
    then some (string c (codes "text"))
    else if str_eq s (codes "tether_quote")
    then some (
        join_filled newline
          (string c (codes "title") ∷ string c (codes "url") ∷ string c (codes "text") ∷ []))
    else if str_eq s (codes "tether_browsing_display")
    then some (join_filled newline (string c (codes "result") ∷ string c (codes "summary") ∷ []))
    else if str_eq s (codes "system_error")
    then some (join_filled (codes ": ") (string c (codes "name") ∷ string c (codes "text") ∷ []))
    else if str_eq s (codes "user_editable_context") || str_eq s (codes "model_editable_context")
    then some (join_filled newline (context_texts (sort_entries (entries c))))
    else none

abbrev pub textual_parts : Str → Option Str → Readable Parts
textual_parts s none = with_unknown (name_of (text s)) (ok no_parts)
textual_parts s (some t) = ok (with_text t no_parts)

abbrev pub content_parts : Hashed → Fields → Readable Parts
content_parts (text s) content =
    if str_eq s (codes "text") || str_eq s (codes "multimodal_text")
    then read_parts (items_or_empty (get (codes "parts") content))
    else textual_parts s (textual s content)
content_parts v content = with_unknown (codes "unknown") (ok no_parts)

abbrev pub attachment_name : Option Json → Option Str
attachment_name (some (str s)) = some s
attachment_name v = none

unfoldable pub attachments : List Json → Readable (List NonTextPart)
attachments [] = ok []
attachments (v ∷ vs) = do
  m ← marker file (attachment_name (field_of (codes "name") (some v)))
  ms ← attachments vs
  ok (m ∷ ms)

abbrev pub is_true : Option Json → Bool
is_true (some (bool b)) = b
is_true v = false

abbrev pub is_hidden_reasoning : Hashed → Readable Bool
is_hidden_reasoning (text s) =
    ok (str_eq s (codes "thoughts") || str_eq s (codes "reasoning_recap"))
is_hidden_reasoning unlisted = ok false
is_hidden_reasoning unhashable = err type_error

-- `read_message`, of a message that is neither hidden nor reasoning.
unfoldable pub read_turn : Times → Fields → Role → Fields → Fields → Readable ReadMessage
read_turn times body role metadata content = do
  parts ← content_parts (hashed (get (codes "content_type") content)) content
  files ← attachments (items_or_empty (get (codes "attachments") metadata))
  sent_at ← export_time times (get (codes "create_time") body)
  message ← validated_as (
      new_message (record {
        role = role;
        text = join_lines parts.texts;
        sent_at = sent_at;
        tool_activity = [];
        non_text_parts = parts.markers ++ files;
      }))
  ok (turn message parts.unrecognized)

abbrev pub read_visible : Times → Fields → Role → Fields → Fields → Readable ReadMessage
read_visible times body role metadata content = do
  reasoning ← is_hidden_reasoning (hashed (get (codes "content_type") content))
  (if reasoning then ok hidden_reasoning else read_turn times body role metadata content)

unfoldable pub read_message : Times → Fields → Readable ReadMessage
read_message times body = do
  role ← read_role body
  let metadata = fields_or_empty (get (codes "metadata") body)
  let content = fields_or_empty (get (codes "content") body)
  (if is_true (get (codes "is_visually_hidden_from_conversation") metadata)
      then ok hidden
      else read_visible times body role metadata content)
