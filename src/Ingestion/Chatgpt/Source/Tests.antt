-- ===== src/Ingestion/Chatgpt/Source/Tests.antt =====
-- An export of two files, with a conversation that both hold and a record that is not an object.
use hermes_memory.Base.{
  ◌≡◌, refl, true, none, some, [], ◌∷◌, ◌++◌, take, drop, Str, codes, Str-discrete, ℕ_discrete, ok,
  Distinct,
}
use hermes_memory.Json.{Json, null, num, int, str, arr, obj, end, field, get, of_list}
use hermes_memory.Json.Utf8.{encode}
use hermes_memory.Normalization.Values.{Timestamp, opaque_identifier, text, is_surrogate}
use hermes_memory.Normalization.Conversation.{
  chatgpt, Conversation, optional_text, activity_follows_start, new_conversation,
}
use hermes_memory.Ingestion.Chatgpt.Unreadable.{not_an_object}
use hermes_memory.Ingestion.Chatgpt.Thread.{
  children, parent, node_at, has_key, check_parent, check_children, check_node, check_nodes,
  children_at, reach, validate, last_child_leaf, walk_up, reconstruct,
}
use hermes_memory.Ingestion.Chatgpt.Values.{Times, export_time}
use hermes_memory.Ingestion.Chatgpt.ToolCalls.{fold_tool_calls}
use hermes_memory.Ingestion.Chatgpt.Record.{
  new_account, sorted_types, read_source_id, tally, earliest, parse_record,
}
use hermes_memory.Ingestion.Pipeline.Run.{Event, item, format_error}
use hermes_memory.Ingestion.Chatgpt.Source.{
  ExportRecord, unreadable, File, convert_read, convert, read_records, read_files, read_export,
}
use hermes_memory.Ingestion.Chatgpt.Source.Fresh.{yielded, read_export-Distinct, read_records-skips}

abbrev noon : Timestamp
noon = record {
  utc = record {
    year = 2024;
    month = 1;
    day = 2;
    hour = 12;
    minute = 0;
    second = 0;
    microsecond = 0;
  };
  offset = 0;
}

abbrev times : Times
times = record { is_finite = λ n. some true; from_timestamp = λ n. some noon }

abbrev root : Json
root = obj (field (codes "parent") null (field (codes "children") (arr (of_list [])) end))

-- A conversation with one node, which has no message.
abbrev told : Str → ExportRecord
told id = record {
  raw = codes "{}";
  value = obj (
      field (codes "id") (str id) (
        field (codes "mapping") (obj (field (codes "1") root end))
          (field (codes "create_time") (num (int 7)) end)));
}

abbrev not_told : ExportRecord
not_told = record { raw = codes "5"; value = num (int 5) }

abbrev told_conversation : Str → Conversation
told_conversation id = record {
  source = chatgpt;
  source_id = id;
  title = none;
  started_at = noon;
  last_activity_at = none;
  messages = [];
}

abbrev told_event : Str → Event
told_event id = item (record {
  conversation = told_conversation id;
  original = record { content = codes "{}"; media_type = codes "application/json" };
})

abbrev first_file : File
first_file = record {
  records = told (codes "a") ∷ not_told ∷ told (codes "b") ∷ [];
  failure = none;
}

abbrev second_file : File
second_file = record { records = told (codes "a") ∷ []; failure = some unreadable }

read_two_files :
    read_export times (ok (first_file ∷ second_file ∷ first_file ∷ []))
    ≡ told_event (codes "a")
      ∷ format_error none
      ∷ told_event (codes "b")
      ∷ format_error (some (codes "a"))
      ∷ format_error none
      ∷ []
unfolding read_export read_files read_records convert convert_read encode parse_record
    read_source_id tally node_at earliest new_account sorted_types fold_tool_calls export_time
    reconstruct validate check_nodes check_node check_parent check_children children parent has_key
    children_at reach last_child_leaf walk_up get Str-discrete ℕ_discrete new_conversation
    opaque_identifier optional_text activity_follows_start text is_surrogate
read_two_files = refl

-- Applications

read_export-Distinct_example :
    Distinct (yielded (read_export times (ok (first_file ∷ second_file ∷ first_file ∷ []))))
read_export-Distinct_example =
    read_export-Distinct times (ok (first_file ∷ second_file ∷ first_file ∷ []))

read_records-skips_example :
    (read_records times (told (codes "a") ∷ not_told ∷ told (codes "b") ∷ []) []).0
    ≡ take 1 (read_records times (told (codes "a") ∷ told (codes "b") ∷ []) []).0
      ++ format_error none
        ∷ drop 1 (read_records times (told (codes "a") ∷ told (codes "b") ∷ []) []).0
read_records-skips_example =
    read_records-skips times (told (codes "a") ∷ []) (told (codes "b") ∷ []) not_told not_an_object
      [] refl
