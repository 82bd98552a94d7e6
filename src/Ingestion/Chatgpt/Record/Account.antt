-- ===== src/Ingestion/Chatgpt/Record/Account.antt =====
-- The counts of the account of conversation.py.
use hermes_memory.Base.{
  ℕ, suc, ◌+◌, ◌≡◌, refl, sym, ap, ◌∙◌, subst, Bool, true, false, Option, none, some, List, [], ◌∷◌,
  Str, str_eq, length, ok, ◌>>=◌, >>=-eq-ok, arith, Distinct,
}
use hermes_memory.Json.{Json, null, obj, Fields, get}
use hermes_memory.Normalization.Conversation.{Message}
use hermes_memory.Ingestion.Chatgpt.Unreadable.{Readable}
use hermes_memory.Ingestion.Chatgpt.Thread.{Thread, node_at, size, validate, reconstruct}
use hermes_memory.Ingestion.Chatgpt.Thread.Tree.{keys}
use hermes_memory.Ingestion.Chatgpt.Thread.Total.{reconstruct-IsThread}
use hermes_memory.Ingestion.Chatgpt.Values.{Times}
use hermes_memory.Ingestion.Chatgpt.Content.{
  ReadMessage, turn, hidden, hidden_reasoning, read_message, key_lt,
}
use hermes_memory.Ingestion.Chatgpt.ToolCalls.{fold_tool_calls, fold_tool_calls-counts}
use hermes_memory.Ingestion.Chatgpt.Record.{
  ThreadAccount, sum_of, insert_type, sorted_types, strictly_sorted, new_account, Tally, tallied,
  tally_message, tally_node, tally, account_of,
}

abbrev total_of : Tally → ℕ
total_of t = length t.items + t.structural + t.hidden + t.hidden_reasoning

tallied-total :
    (times : Times) (body : Fields) (read : ReadMessage) (t : Tally)
    → total_of (tallied body read t) ≡ suc (total_of t)
tallied-total times body (turn m types) t = omega arith
tallied-total times body hidden t = omega arith
tallied-total times body hidden_reasoning t = omega arith

-- One more than the rest.
abbrev OneMore : Readable Tally → Tally → Type 0
OneMore rest t = (t' : Tally) × (rest ≡ ok t') × (total_of t ≡ suc (total_of t'))

structural_more :
    (rest : Readable Tally) {t : Tally}
    → (rest >>= λ t'. ok (record t' { structural = suc t'.structural })) ≡ ok t
    → OneMore rest t
structural_more rest h = let (t', e, h1) = >>=-eq-ok rest _ h in (t', e, ground arith)

tally_message-total :
    (times : Times) (v : Option Json) (rest : Readable Tally) {t : Tally}
    → tally_message times v rest ≡ ok t
    → OneMore rest t
tally_message-total times none rest h = structural_more rest h
tally_message-total times (some null) rest h = structural_more rest h
tally_message-total times (some (obj body)) rest {t = t} h =
    let (read, e1, h1) = >>=-eq-ok (read_message times body) _ h in
    let (t', e2, h2) = >>=-eq-ok rest _ h1 in
    let same : tallied body read t' ≡ t = cc in
    (t', e2, ap total_of (sym same) ∙ tallied-total times body read t')
tally_message-total times (some v) rest h = cc

tally_node-total :
    (times : Times) (node : Option Fields) (rest : Readable Tally) {t : Tally}
    → tally_node times node rest ≡ ok t
    → OneMore rest t
tally_node-total times none rest h = cc
tally_node-total times (some node) rest h = tally_message-total times (get _ node) rest h

tally-total :
    (times : Times) (mapping : Fields) (node_ids : List Str) {t : Tally}
    → tally times mapping node_ids ≡ ok t
    → total_of t ≡ length node_ids
unfolding tally
tally-total times mapping [] h = ground arith
tally-total times mapping (node_id ∷ node_ids) h =
    let (t', e, more) =
      tally_node-total times (node_at mapping node_id) (tally times mapping node_ids) h in
    let rest = tally-total times mapping node_ids e in omega (arith, more, rest)

key_lt-total : (t u : Str) → str_eq t u ≡ false → key_lt t u ≡ false → key_lt u t ≡ true
unfolding key_lt
key_lt-total [] [] e h = ground arith
key_lt-total [] (d ∷ ds) e h = cc
key_lt-total (c ∷ cs) [] e h = refl
key_lt-total (c ∷ cs) (d ∷ ds) e h = ground (arith, key_lt-total cs ds)

insert_type-sorted :
    (t : Str) (us : List Str)
    → strictly_sorted us ≡ true
    → strictly_sorted (insert_type t us) ≡ true
unfolding insert_type
insert_type-sorted t [] h = refl
insert_type-sorted t (u ∷ []) h = ground (arith, key_lt-total t u)
insert_type-sorted t (u ∷ v ∷ vs) h =
    ground (arith, key_lt-total t u, insert_type-sorted t (v ∷ vs))

sorted_types-sorted : (ts : List Str) → strictly_sorted (sorted_types ts) ≡ true
unfolding sorted_types
sorted_types-sorted [] = refl
sorted_types-sorted (t ∷ ts) = insert_type-sorted t (sorted_types ts) (sorted_types-sorted ts)

new_account-ok :
    (a : ThreadAccount)
    → sum_of a ≡ a.nodes
    → strictly_sorted a.unrecognized_content_types ≡ true
    → new_account a ≡ ok a
unfolding new_account
new_account-ok a h s = ground (arith, h, s)

thread-counted :
    (mapping : Fields) (current_node : Option Json) {thread : Thread}
    → Distinct (keys mapping)
    → reconstruct mapping current_node ≡ ok thread
    → length thread.node_ids + thread.abandoned ≡ size mapping
unfolding reconstruct
thread-counted mapping current_node {thread = thread} unique h =
    let (root, valid, h1) = >>=-eq-ok (validate mapping) _ h in
    let (thread', e, is_thread) = reconstruct-IsThread mapping current_node unique valid in
    let same : thread' ≡ thread = let e' = sym e ∙ h in cc in
    subst (λ (t : Thread). length t.node_ids + t.abandoned ≡ size mapping) same is_thread.counted

-- Reading skips no node silently: for a mapping with distinct keys whose thread was found, whose
-- messages on it were read and whose tool calls were folded, the counts of turns, folded results,
-- structural, hidden and abandoned nodes add up to the nodes of the mapping and the unrecognized
-- types are sorted, so the account is accepted.
pub account_of-accepted :
    (times : Times) (source_id : Str) (mapping : Fields) (current_node : Option Json)
    (from_messages inconsistent : Bool) {thread : Thread} {t : Tally} {turns : List Message}
    {folded : ℕ}
    → Distinct (keys mapping)
    → reconstruct mapping current_node ≡ ok thread
    → tally times mapping thread.node_ids ≡ ok t
    → fold_tool_calls t.items ≡ ok (turns, folded)
    → let account = account_of source_id mapping thread t turns folded from_messages inconsistent in
      new_account account ≡ ok account
account_of-accepted times source_id mapping current_node from_messages inconsistent
      {thread = thread} {t = t} unique h1 h2 h3 =
    let counted = thread-counted mapping current_node unique h1 in
    let tallied_all = tally-total times mapping thread.node_ids h2 in
    let folded_all = fold_tool_calls-counts t.items h3 in
    new_account-ok _ (omega (arith, counted, tallied_all, folded_all))
      (sorted_types-sorted t.unrecognized)
