-- ===== src/Normalization/Identity.antt =====
-- `Conversation.document_id` of conversation.py.
use hermes_memory.Base.{◌≡◌, ◌∷◌, ◌++◌, Str, arith}
use hermes_memory.Normalization.Conversation.{Source, source_value, Conversation, document_id}

identity_parts :
    (s t : Source) (a b : Str)
    → source_value s ++ b':' ∷ a ≡ source_value t ++ b':' ∷ b
    → (s ≡ t) × (a ≡ b)
identity_parts s t a b h = ground arith

-- Two conversations with one document id have the same source and the same native id, also where
-- a native id holds a colon.
pub document_id-injective :
    (c d : Conversation)
    → document_id c ≡ document_id d
    → (c.source ≡ d.source) × (c.source_id ≡ d.source_id)
unfolding document_id
document_id-injective c d h = identity_parts c.source d.source c.source_id d.source_id h
