-- ===== src/Ingestion/Chatgpt/RecordTests.antt =====
-- A record with a tool call and its result, read to an account.
use hermes_memory.Base.{
  ◌+◌, ◌≡◌, refl, true, false, none, some, List, [], ◌∷◌, Str, codes, Str-discrete, ℕ_discrete, ok,
  err, Distinct, length, arith,
}
use hermes_memory.Json.{Json, null, str, arr, obj, Fields, end, field, get, of_list}
use hermes_memory.Normalization.Values.{text, is_surrogate}
use hermes_memory.Normalization.Conversation.{
  Role, Role-discrete, assistant, tool, Message, optional_text, filled_text, new_message,
  new_non_text_part, new_tool_activity,
}
use hermes_memory.Ingestion.Chatgpt.Unreadable.{type_error}
use hermes_memory.Ingestion.Chatgpt.Thread.{
  Thread, children, parent, node_at, has_key, check_parent, check_children, check_node, check_nodes,
  children_at, reach, validate, last_child_leaf, walk_up, reconstruct,
}
use hermes_memory.Ingestion.Chatgpt.Thread.Tree.{keys}
use hermes_memory.Ingestion.Chatgpt.Values.{
  Times, export_time, read_role, string, join_filled, join_lines,
}
use hermes_memory.Ingestion.Chatgpt.Content.{
  read_parts, textual, attachments, read_turn, read_message,
}
use hermes_memory.Ingestion.Chatgpt.ToolCalls.{
  tool_call, answers, call_turn, fold_tool_calls, fold_tool_calls-counts,
}
use hermes_memory.Ingestion.Chatgpt.Record.{Tally, tally, new_account, account_of}
use hermes_memory.Ingestion.Chatgpt.Record.Account.{account_of-accepted}

abbrev one : Str → Json → Json
one key value = obj (field key value end)

abbrev no_times : Times
no_times = record { is_finite = λ n. none; from_timestamp = λ n. none }

-- An assistant's call of a tool, and the tool's answer.
abbrev call : Fields
call = field (codes "author") (one (codes "role") (str (codes "assistant"))) (
    field (codes "recipient") (str (codes "python")) (
      field (codes "content")
        (obj (
          field (codes "content_type") (str (codes "code"))
            (field (codes "text") (str (codes "1+1")) end)))
        end))

abbrev answer : Fields
answer =
    field (codes "author")
      (obj (
        field (codes "role") (str (codes "tool"))
          (field (codes "name") (str (codes "python")) end)))
      (field (codes "content")
        (obj (
          field (codes "content_type") (str (codes "execution_output"))
            (field (codes "text") (str (codes "2")) end)))
        end)

abbrev linked : Json → List Json → Fields → Json
linked above below message =
    obj (field (codes "parent") above (field (codes "children") (arr (of_list below)) message))

abbrev told : Fields
told = field (codes "1") (linked null (str (codes "2") ∷ []) end) (
    field (codes "2")
      (linked (str (codes "1")) (str (codes "3") ∷ []) (field (codes "message") (obj call) end))
      (field (codes "3") (linked (str (codes "2")) [] (field (codes "message") (obj answer) end))
        end))

abbrev path : Thread
path = record {
  node_ids = codes "1" ∷ codes "2" ∷ codes "3" ∷ [];
  fallback_branch = false;
  abandoned = 0;
}

told_path : reconstruct told (some (str (codes "3"))) ≡ ok path
unfolding reconstruct validate check_nodes check_node check_parent check_children children parent
    node_at has_key children_at reach last_child_leaf walk_up get Str-discrete ℕ_discrete
told_path = refl

abbrev said : Role → Str → Message
said role text = record {
  role = role;
  text = text;
  sent_at = none;
  tool_activity = [];
  non_text_parts = [];
}

abbrev read : Tally
read = record {
  items = (call, said assistant (codes "1+1")) ∷ (answer, said tool (codes "2")) ∷ [];
  structural = 1;
  hidden = 0;
  hidden_reasoning = 0;
  unrecognized = [];
}

told_tally : tally no_times told path.node_ids ≡ ok read
unfolding tally node_at get Str-discrete ℕ_discrete read_message read_role read_turn textual string
    join_filled join_lines read_parts attachments export_time new_message text is_surrogate
    new_non_text_part
told_tally = refl

abbrev folded_call : Message
folded_call = record (said assistant []) {
  tool_activity =
      (record { name = codes "python"; request = some (codes "1+1"); result = some (codes "2") })
      ∷ [];
}

told_folded : fold_tool_calls read.items ≡ ok (folded_call ∷ [], 1)
unfolding fold_tool_calls tool_call answers call_turn new_tool_activity new_message optional_text
    filled_text text is_surrogate get Str-discrete ℕ_discrete Role-discrete
told_folded = refl

-- A list where a type is read cannot be hashed, and that raises a `TypeError`.
unhashable_type :
    read_message no_times (
      field
        (codes "author")
        (one (codes "role") (str (codes "user")))
        (field (codes "content") (one (codes "content_type") (arr (of_list []))) end))
    ≡ err type_error
unfolding read_message read_role get Str-discrete ℕ_discrete
unhashable_type = refl

-- Applications

fold_tool_calls-counts_example : length (folded_call ∷ []) + 1 ≡ length read.items
fold_tool_calls-counts_example = fold_tool_calls-counts read.items told_folded

Distinct-keys-told : Distinct (keys told)
Distinct-keys-told = ground arith

account_of-accepted_example :
    new_account (account_of (codes "c") told path read (folded_call ∷ []) 1 true false)
    ≡ ok (account_of (codes "c") told path read (folded_call ∷ []) 1 true false)
account_of-accepted_example =
    account_of-accepted no_times (codes "c") told (some (str (codes "3"))) true false
      Distinct-keys-told told_path told_tally told_folded
