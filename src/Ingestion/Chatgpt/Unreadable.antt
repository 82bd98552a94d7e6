-- ===== src/Ingestion/Chatgpt/Unreadable.antt =====
-- `UnreadableRecord` of thread.py, by the rule that it names; and what else reading a record may raise.
use hermes_memory.Base.{Result, translate}
use hermes_memory.Normalization.Values.{Invalid, Valid}

pub data UnreadableRecord : Type 0 where
  children_not_ids child_twice : UnreadableRecord
  no_mapping entry_not_a_node unknown_parent parent_disagrees unknown_child child_disagrees :
      UnreadableRecord
  roots_not_one not_a_tree : UnreadableRecord
  time_not_a_number time_not_finite time_out_of_range no_role : UnreadableRecord
  not_an_object no_identifier message_not_an_object no_start : UnreadableRecord
  -- `ValidationError` of the model, `TypeError` of a value that cannot be hashed, and the `ValueError`
  -- of an account that does not add up.
  invalid : Invalid → UnreadableRecord
  type_error bad_account : UnreadableRecord
  -- What the validation rules out: a key that is missing, and a walk that does not end.
  key_missing endless : UnreadableRecord

abbrev pub Readable : Type 0 → Type 0
Readable = Result UnreadableRecord

-- Building a model while a record is read.
abbrev pub validated_as : {A : Type 0} → Valid A → Readable A
validated_as = translate invalid
