-- ===== src/Ingestion/Chatgpt/ToolCalls.antt =====
-- `fold_tool_calls` of content.py: a tool call takes in the result that answers it.
use hermes_memory.Base.{
  ℕ, suc, ◌+◌, ◌≡◌, Bool, false, ◌&&◌, ◌||◌, Option, none, some, List, [], ◌∷◌, ◌++◌, Str, str_eq,
  codes, holds, is_empty, length, if◌then◌else◌, ok, ◌>>=◌, >>=-eq-ok, arith, Bool-cases, inl, inr,
}
use hermes_memory.Json.{Json, str, Fields, get}
use hermes_memory.Normalization.Conversation.{
  Role-discrete, assistant, tool, NonTextPart, new_tool_activity, Message, new_message,
}
use hermes_memory.Ingestion.Chatgpt.Unreadable.{Readable, validated_as}
use hermes_memory.Ingestion.Chatgpt.Values.{field_of}

abbrev pub Turn : Type 0
Turn = Fields × Message

abbrev pub recipient_of : Option Json → Option Str
recipient_of (some (str s)) = if is_empty s || str_eq s (codes "all") then none else some s
recipient_of v = none

-- `_tool_call`
unfoldable pub tool_call : Turn → Option Str
tool_call (body, turn) =
    if holds (Role-discrete turn.role assistant)
    then recipient_of (get (codes "recipient") body)
    else none

abbrev pub names_tool : Str → Option Json → Bool
names_tool name (some (str s)) = str_eq s name
names_tool name v = false

-- Whether a turn is the result that answers a call of the tool.
unfoldable pub answers : Str → Turn → Bool
answers name (body, turn) =
    holds (Role-discrete turn.role tool)
    && names_tool name (field_of (codes "name") (get (codes "author") body))

abbrev pub text_or_none : Str → Option Str
text_or_none s = if is_empty s then none else some s

-- The turn of a call, with its result and the markers of both.
unfoldable pub call_turn : Message → Str → Option Str → List NonTextPart → Readable Message
call_turn turn name result markers = do
  activity ← validated_as (
      new_tool_activity (record { name = name; request = text_or_none turn.text; result = result }))
  validated_as (
      new_message
        (record turn { text = []; tool_activity = activity ∷ []; non_text_parts = markers }))

abbrev pub Folded : Type 0
Folded = List Message × ℕ

-- One turn before the others, and how many results it took in.
abbrev pub before_rest : Readable Message → ℕ → Readable Folded → Readable Folded
before_rest first taken rest = do
  message ← first
  folded ← rest
  ok (message ∷ folded.0, taken + folded.1)

-- A call that the next turn follows, where the rest is folded without or with that turn.
abbrev pub fold_call : Message → Str → Turn → Readable Folded → Readable Folded → Readable Folded
fold_call turn name (body', turn') with_next after_next =
    if answers name (body', turn')
    then before_rest
        (call_turn turn name (some turn'.text) (turn.non_text_parts ++ turn'.non_text_parts)) 1
        after_next
    else before_rest (call_turn turn name none turn.non_text_parts) 0 with_next

abbrev pub fold_turn :
    Option Str → Message → Turn → Readable Folded → Readable Folded → Readable Folded
fold_turn none turn next with_next after_next = before_rest (ok turn) 0 with_next
fold_turn (some name) turn next with_next after_next = fold_call turn name next with_next after_next

abbrev pub fold_last : Option Str → Message → Readable Message
fold_last none turn = ok turn
fold_last (some name) turn = call_turn turn name none turn.non_text_parts

unfoldable pub fold_tool_calls : List Turn → Readable Folded
fold_tool_calls [] = ok ([], 0)
fold_tool_calls (item ∷ []) = before_rest (fold_last (tool_call item) item.1) 0 (ok ([], 0))
fold_tool_calls (item ∷ next ∷ rest) =
    let with_next = fold_tool_calls (next ∷ rest) in
    let after_next = fold_tool_calls rest in
    fold_turn (tool_call item) item.1 next with_next after_next

before_rest-counts :
    (first : Readable Message) (taken : ℕ) (rest : Readable Folded) (n : ℕ) {turns : List Message}
    {folded : ℕ}
    → ((ts : List Message) (k : ℕ) → rest ≡ ok (ts, k) → length ts + k ≡ n)
    → before_rest first taken rest ≡ ok (turns, folded)
    → length turns + folded ≡ suc (taken + n)
before_rest-counts first taken rest n counts h =
    let (message, e1, h1) = >>=-eq-ok first _ h in
    let (rest', e2, h2) = >>=-eq-ok rest _ h1 in
    let total : length rest'.0 + rest'.1 ≡ n = counts rest'.0 rest'.1 e2 in ground (arith, total)

-- Where folding succeeds it loses no turn: those that it returns and the results that were taken
-- in are together as many as were given.
pub fold_tool_calls-counts :
    (items : List Turn) {turns : List Message} {folded : ℕ}
    → fold_tool_calls items ≡ ok (turns, folded)
    → length turns + folded ≡ length items
unfolding fold_tool_calls
fold_tool_calls-counts [] h = ground arith
fold_tool_calls-counts (item ∷ []) h = omega (
  arith,
  before_rest-counts (fold_last (tool_call item) item.1) 0 (ok ([], 0)) 0 (λ ts k e. ground arith)
      h,
)
fold_tool_calls-counts (item ∷ next ∷ rest) h =
    by_call (tool_call item) h (λ ts k e. fold_tool_calls-counts (next ∷ rest) e)
      (λ ts k e. fold_tool_calls-counts rest e)
  where
    by_call :
        (call : Option Str) {turns : List Message} {folded : ℕ}
        → fold_turn call item.1 next (fold_tool_calls (next ∷ rest)) (fold_tool_calls rest)
          ≡ ok (turns, folded)
        → ((ts : List Message) (k : ℕ)
            → fold_tool_calls (next ∷ rest) ≡ ok (ts, k)
            → length ts + k ≡ suc (length rest))
        → ((ts : List Message) (k : ℕ)
            → fold_tool_calls rest ≡ ok (ts, k)
            → length ts + k ≡ length rest)
        → length turns + folded ≡ suc (suc (length rest))
    by_call none h' one two = omega (
      arith,
      before_rest-counts (ok item.1) 0 (fold_tool_calls (next ∷ rest)) (suc (length rest)) one h',
    )
    by_call (some name) {turns = ts} {folded = k} h' one two =
        elim (Bool-cases (answers name next)) [
          | inl yes_it ↦ omega (
            arith,
            before_rest-counts
                (call_turn item.1 name (some next.1.text)
                  (item.1.non_text_parts ++ next.1.non_text_parts))
                1 (fold_tool_calls rest) (length rest) {turns = ts} {folded = k} two
                (ground (arith, yes_it)),
          )
          | inr not_it ↦ omega (
            arith,
            before_rest-counts (call_turn item.1 name none item.1.non_text_parts) 0
                (fold_tool_calls (next ∷ rest)) (suc (length rest)) {turns = ts} {folded = k} one
                (ground (arith, not_it)),
          )
        ]
