-- ===== src/Normalization/Coverage.antt =====
-- The content that the canonical form of canonical.py covers.
use hermes_memory.Base.{◌≡◌, refl, ◌↔◌, Option, none, some, List, [], ◌∷◌, map, Str, All, arith}
use hermes_memory.Json.{Json, of_list}
use hermes_memory.Normalization.Values.{Civil, Timestamp}
use hermes_memory.Normalization.Conversation.{
  Role, role_value, NonTextPart, ToolActivity, Message, Conversation,
}
use hermes_memory.Normalization.Clock.{IsCivil, format-injective}
use hermes_memory.Normalization.Canonical.{
  render_time, optional_str, activity_form, part_form, message_form, canonical_form,
}

-- The content that the hash stands for: role, text, instant, tool activity and non-text parts of
-- each message, in order.
pub record Content : Type 0 where
  pub role : Role
  pub text : Str
  pub instant : Option Civil
  pub tool_activity : List ToolActivity
  pub non_text_parts : List NonTextPart

abbrev pub instant_of : Option Timestamp → Option Civil
instant_of none = none
instant_of (some t) = some t.utc

abbrev pub content_of : Message → Content
content_of m = record {
  role = m.role;
  text = m.text;
  instant = instant_of m.sent_at;
  tool_activity = m.tool_activity;
  non_text_parts = m.non_text_parts;
}

abbrev pub IsCivilTime : Option Timestamp → Type 0
IsCivilTime none = Unit
IsCivilTime (some t) = IsCivil t.utc

abbrev pub IsTimed : Message → Type 0
IsTimed m = IsCivilTime m.sent_at

optional_str-injective : (a b : Option Str) → optional_str a ≡ optional_str b → a ≡ b
optional_str-injective a b h = ground arith

role_value-injective : (a b : Role) → role_value a ≡ role_value b → a ≡ b
role_value-injective a b h = ground arith

activity_form-injective : (a b : ToolActivity) → activity_form a ≡ activity_form b → a ≡ b
unfolding activity_form
activity_form-injective a b h =
    ground
      (arith, optional_str-injective a.request b.request, optional_str-injective a.result b.result)

part_form-injective : (a b : NonTextPart) → part_form a ≡ part_form b → a ≡ b
unfolding part_form
part_form-injective a b h = ground (arith, optional_str-injective a.name b.name)

of_list-map-injective :
    {A : Type 0} (f : A → Json)
    → ((a b : A) → f a ≡ f b → a ≡ b)
    → (xs ys : List A) → of_list (map f xs) ≡ of_list (map f ys)
    → xs ≡ ys
of_list-map-injective f inj [] [] h = refl
of_list-map-injective f inj [] (y ∷ ys) h = cc
of_list-map-injective f inj (x ∷ xs) [] h = cc
of_list-map-injective f inj (x ∷ xs) (y ∷ ys) h =
    ground (arith, inj x y, of_list-map-injective f inj xs ys)

render_time-injective :
    (s t : Option Timestamp)
    → IsCivilTime s
    → IsCivilTime t
    → render_time s ≡ render_time t
    → instant_of s ≡ instant_of t
unfolding render_time
render_time-injective none none p q h = refl
render_time-injective none (some t) p q h = cc
render_time-injective (some s) none p q h = cc
render_time-injective (some s) (some t) p q h = ground (arith, format-injective s.utc t.utc p q)

message_form-injective :
    (a b : Message)
    → IsTimed a
    → IsTimed b
    → message_form a ≡ message_form b
    → content_of a ≡ content_of b
unfolding message_form
message_form-injective a b p q h = ground (
  arith,
  role_value-injective a.role b.role,
  render_time-injective a.sent_at b.sent_at p q,
  of_list-map-injective activity_form activity_form-injective a.tool_activity b.tool_activity,
  of_list-map-injective part_form part_form-injective a.non_text_parts b.non_text_parts,
)

messages-injective :
    (xs ys : List Message)
    → All IsTimed xs
    → All IsTimed ys
    → of_list (map message_form xs) ≡ of_list (map message_form ys)
    → map content_of xs ≡ map content_of ys
messages-injective [] [] p q h = refl
messages-injective [] (y ∷ ys) p q h = cc
messages-injective (x ∷ xs) [] p q h = cc
messages-injective (x ∷ xs) (y ∷ ys) p q h =
    ground (arith, message_form-injective x y p.0 q.0, messages-injective xs ys p.1 q.1)

render_time-instant :
    (s t : Option Timestamp) → instant_of s ≡ instant_of t → render_time s ≡ render_time t
unfolding render_time
render_time-instant none none h = refl
render_time-instant none (some t) h = cc
render_time-instant (some s) none h = cc
render_time-instant (some s) (some t) h = ground arith

message_form-content :
    (a b : Message) → content_of a ≡ content_of b → message_form a ≡ message_form b
unfolding message_form
message_form-content a b h = ground (arith, render_time-instant a.sent_at b.sent_at)

messages-content :
    (xs ys : List Message)
    → map content_of xs ≡ map content_of ys
    → of_list (map message_form xs) ≡ of_list (map message_form ys)
messages-content [] [] h = refl
messages-content [] (y ∷ ys) h = cc
messages-content (x ∷ xs) [] h = cc
messages-content (x ∷ xs) (y ∷ ys) h =
    ground (arith, message_form-content x y, messages-content xs ys)

-- Two conversations whose message times are datetimes have the same canonical form exactly when
-- their messages agree, in order, on role, text, instant, tool activity and non-text parts.
pub canonical_form-covers :
    (c d : Conversation)
    → All IsTimed c.messages
    → All IsTimed d.messages
    → (canonical_form c ≡ canonical_form d)
      ↔ (map content_of c.messages ≡ map content_of d.messages)
unfolding canonical_form
canonical_form-covers c d p q = (
  λ h. ground (arith, messages-injective c.messages d.messages p q),
  λ h. ground (arith, messages-content c.messages d.messages h),
)
