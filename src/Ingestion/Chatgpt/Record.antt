-- ===== src/Ingestion/Chatgpt/Record.antt =====
-- src/engineering_memory/ingestion/chatgpt/conversation.py
pub mod Account
use hermes_memory.Base.{
  ℕ, zero, suc, ◌+◌, ◌-◌, ◌==◌, Bool, true, false, not, ◌&&◌, ◌||◌, Option, none, some, List, [],
  ◌∷◌, ◌++◌, Str, str_eq, Str-discrete, codes, any, is_empty, is_some, length, if◌then◌else◌,
  Result, ok, err, ◌>>=◌, ◌>>◌, require,
}
use hermes_memory.Json.{Json, null, str, obj, Fields, get}
use hermes_memory.Normalization.Values.{Timestamp, before}
use hermes_memory.Normalization.Conversation.{chatgpt, Message, Conversation, new_conversation}
use hermes_memory.Ingestion.Chatgpt.Unreadable.{
  Readable, UnreadableRecord, not_an_object, no_identifier, message_not_an_object, no_start,
  no_mapping, key_missing, bad_account, validated_as,
}
use hermes_memory.Ingestion.Chatgpt.Thread.{Thread, node_at, size, reconstruct, is_member}
use hermes_memory.Ingestion.Chatgpt.Values.{Times, export_time}
use hermes_memory.Ingestion.Chatgpt.Content.{
  ReadMessage, turn, hidden, hidden_reasoning, read_message, key_lt,
}
use hermes_memory.Ingestion.Chatgpt.ToolCalls.{Turn, fold_tool_calls}

pub record ThreadAccount : Type 0 where
  pub source_id : Str
  pub nodes : ℕ
  pub turns : ℕ
  pub folded_tool_results : ℕ
  pub structural : ℕ
  pub hidden : ℕ
  pub hidden_reasoning : ℕ
  pub abandoned_branch : ℕ
  pub fallback_branch : Bool
  pub start_from_messages : Bool
  pub inconsistent_times : Bool
  pub unrecognized_content_types : List Str

abbrev pub sum_of : ThreadAccount → ℕ
sum_of a =
    a.turns + a.folded_tool_results + a.structural + a.hidden + a.hidden_reasoning
    + a.abandoned_branch

-- `sorted(set(...))` of texts.
unfoldable pub insert_type : Str → List Str → List Str
insert_type t [] = t ∷ []
insert_type t (u ∷ us) =
    if str_eq t u then u ∷ us else if key_lt t u then t ∷ u ∷ us else u ∷ insert_type t us

unfoldable pub sorted_types : List Str → List Str
sorted_types [] = []
sorted_types (t ∷ ts) = insert_type t (sorted_types ts)

abbrev pub strictly_sorted : List Str → Bool
strictly_sorted [] = true
strictly_sorted (t ∷ []) = true
strictly_sorted (t ∷ u ∷ us) = key_lt t u && strictly_sorted (u ∷ us)

-- `__post_init__`, with counts that are not negative.
unfoldable pub new_account : ThreadAccount → Readable ThreadAccount
new_account a = do
  require (sum_of a == a.nodes) bad_account
  require (strictly_sorted a.unrecognized_content_types) bad_account
  ok a

abbrev pub filled_id : Option Json → Option Str
filled_id (some (str s)) = if is_empty s then none else some s
filled_id v = none

abbrev pub first_id : Option Str → Option Str → Readable Str
first_id (some s) other = ok s
first_id none (some s) = ok s
first_id none none = err no_identifier

-- `_source_id`
unfoldable pub read_source_id : Fields → Readable Str
read_source_id record' =
    first_id (filled_id (get (codes "conversation_id") record'))
      (filled_id (get (codes "id") record'))

-- The local variables of the loop over the thread.
pub record Tally : Type 0 where
  pub items : List Turn
  pub structural : ℕ
  pub hidden : ℕ
  pub hidden_reasoning : ℕ
  pub unrecognized : List Str

abbrev nothing_read : Tally
nothing_read = record {
  items = [];
  structural = 0;
  hidden = 0;
  hidden_reasoning = 0;
  unrecognized = [];
}

-- One message, before those that follow.
abbrev pub tallied : Fields → ReadMessage → Tally → Tally
tallied body (turn message types) t = record t {
  items = (body, message) ∷ t.items;
  unrecognized = types ++ t.unrecognized;
}
tallied body hidden t = record t { hidden = suc t.hidden }
tallied body hidden_reasoning t = record t { hidden_reasoning = suc t.hidden_reasoning }

abbrev pub tally_message : Times → Option Json → Readable Tally → Readable Tally
tally_message times none rest = do t ← rest; ok (record t { structural = suc t.structural })
tally_message times (some null) rest = do t ← rest; ok (record t { structural = suc t.structural })
tally_message times (some (obj body)) rest = do
  read ← read_message times body
  t ← rest
  ok (tallied body read t)
tally_message times (some v) rest = err message_not_an_object

abbrev pub tally_node : Times → Option Fields → Readable Tally → Readable Tally
tally_node times none rest = err key_missing
tally_node times (some node) rest = tally_message times (get (codes "message") node) rest

unfoldable pub tally : Times → Fields → List Str → Readable Tally
tally times mapping [] = ok nothing_read
tally times mapping (node_id ∷ node_ids) =
    let rest = tally times mapping node_ids in tally_node times (node_at mapping node_id) rest

-- `min(...)` of the times that the turns carry.
abbrev pub earlier : Option Timestamp → Option Timestamp → Option Timestamp
earlier none b = b
earlier (some a) none = some a
earlier (some a) (some b) = if before b a then some b else some a

unfoldable pub earliest : List Message → Option Timestamp
earliest [] = none
earliest (m ∷ ms) = let rest = earliest ms in earlier m.sent_at rest

abbrev pub started : Option Timestamp → Option Timestamp → Readable Timestamp
started (some at) first = ok at
started none (some at) = ok at
started none none = err no_start

abbrev pub precedes : Option Timestamp → Timestamp → Bool
precedes none start = false
precedes (some at) start = before at start

abbrev pub title_of : Option Json → Option Str
title_of (some (str s)) = some s
title_of v = none

abbrev pub ReadConversation : Type 0
ReadConversation = Conversation × ThreadAccount

abbrev pub mapping_of : Option Json → Readable Fields
mapping_of (some (obj mapping)) = ok mapping
mapping_of v = err no_mapping

abbrev pub account_of :
    Str → Fields → Thread → Tally → List Message → ℕ → Bool → Bool → ThreadAccount
account_of source_id mapping thread t turns folded from_messages inconsistent = record {
  source_id = source_id;
  nodes = size mapping;
  turns = length turns;
  folded_tool_results = folded;
  structural = t.structural;
  hidden = t.hidden;
  hidden_reasoning = t.hidden_reasoning;
  abandoned_branch = thread.abandoned;
  fallback_branch = thread.fallback_branch;
  start_from_messages = from_messages;
  inconsistent_times = inconsistent;
  unrecognized_content_types = sorted_types t.unrecognized;
}

-- `parse_record`, of a JSON object.
unfoldable pub parse_record : Times → Fields → Readable ReadConversation
parse_record times value = do
  source_id ← read_source_id value
  mapping ← mapping_of (get (codes "mapping") value)
  thread ← reconstruct mapping (get (codes "current_node") value)
  t ← tally times mapping thread.node_ids
  folded ← fold_tool_calls t.items
  created ← export_time times (get (codes "create_time") value)
  started_at ← started created (earliest folded.0)
  updated ← export_time times (get (codes "update_time") value)
  let inconsistent = precedes updated started_at
  c ← validated_as (
      new_conversation (record {
        source = chatgpt;
        source_id = source_id;
        title = title_of (get (codes "title") value);
        started_at = started_at;
        last_activity_at = if inconsistent then none else updated;
        messages = folded.0;
      }))
  account ←
      new_account (
        account_of source_id mapping thread t folded.0 folded.1 (not (is_some created))
          inconsistent)
  ok (c, account)

-- `parse_record`
abbrev pub parse_value : Times → Json → Readable ReadConversation
parse_value times (obj value) = parse_record times value
parse_value times v = err not_an_object
