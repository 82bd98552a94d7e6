-- ===== src/Json.antt =====
-- JSON values as `json.loads` returns them and `json.dumps` takes them (Python's standard library).
-- A dict keeps its insertion order. A float is an opaque bit pattern.
pub mod Dumps
pub mod Utf8
use hermes_memory.Base.{ℕ, Bool, Option, none, some, List, [], ◌∷◌, Str, Str-discrete, ite}

pub data Number : Type 0 where
  int : ℕ → Number
  negative : ℕ → Number
  float : ℕ → Number

mutual
  pub data Json : Type 0 where
    null : Json
    bool : Bool → Json
    num : Number → Json
    str : Str → Json
    arr : Items → Json
    obj : Fields → Json

  pub data Items : Type 0 where
    nil : Items
    cons : Json → Items → Items

  pub data Fields : Type 0 where
    end : Fields
    field : Str → Json → Fields → Fields

-- `dict.get(key)`
unfoldable pub get : Str → Fields → Option Json
get k end = none
get k (field j v rest) = ite (Str-discrete j k) (some v) (get k rest)

abbrev pub items : Items → List Json
items nil = []
items (cons v rest) = v ∷ items rest

abbrev pub entries : Fields → List (Str × Json)
entries end = []
entries (field k v rest) = (k, v) ∷ entries rest

abbrev pub of_list : List Json → Items
of_list [] = nil
of_list (v ∷ vs) = cons v (of_list vs)

-- `value if isinstance(value, Mapping) else {}`
abbrev pub fields_or_empty : Option Json → Fields
fields_or_empty (some (obj fs)) = fs
fields_or_empty v = end

-- `value if isinstance(value, list) else []`
abbrev pub items_or_empty : Option Json → List Json
items_or_empty (some (arr vs)) = items vs
items_or_empty v = []
