-- ===== src/Json.antt =====
-- JSON values as Python's `json` decodes them, and messages: a `dict` with string keys.
-- Numbers are integers; a number with a fraction is not modelled.
use python_yamp.Prelude.{
  String, Bool, ℤ, List, [], ◌∷◌, Option, none, some, ◌≡◌, refl, ap, string_eq,
}
use python_yamp.Prelude.Dict.{Dict, get_or}

mutual
  pub data Value : Type 0 where
    null : Value
    bool : Bool → Value
    num : ℤ → Value
    str : String → Value
    arr : Items → Value
    obj : Fields → Value

  pub data Fields : Type 0 where
    end : Fields
    field : String → Value → Fields → Fields

  pub data Items : Type 0 where
    nil : Items
    cons : Value → Items → Items

abbrev pub Message : Type 0
Message = Dict String Value

abbrev pub entries : Fields → Message
entries end = []
entries (field k v fs) = (k, v) ∷ entries fs

abbrev pub of_entries : Message → Fields
of_entries [] = end
of_entries ((k, v) ∷ m) = field k v (of_entries m)

abbrev pub items : Items → List Value
items nil = []
items (cons v vs) = v ∷ items vs

abbrev pub of_items : List Value → Items
of_items [] = nil
of_items (v ∷ vs) = cons v (of_items vs)

pub entries-of_entries : (m : Message) → entries (of_entries m) ≡ m
entries-of_entries [] = refl
entries-of_entries ((k, v) ∷ m) = ap (◌∷◌ (k, v)) (entries-of_entries m)

pub of_entries-entries : (fs : Fields) → of_entries (entries fs) ≡ fs
of_entries-entries end = refl
of_entries-entries (field k v fs) = ap (field k v) (of_entries-entries fs)

pub items-of_items : (vs : List Value) → items (of_items vs) ≡ vs
items-of_items [] = refl
items-of_items (v ∷ vs) = ap (◌∷◌ v) (items-of_items vs)

-- A dict as a value.
abbrev pub dict : Message → Value
dict m = obj (of_entries m)

abbrev pub list : List Value → Value
list vs = arr (of_items vs)

-- m.get(k): Python's None is JSON's null
abbrev pub get_value : Message → String → Value
get_value m k = get_or m k null

-- v if isinstance(v, dict) else {}
abbrev pub dict_or_empty : Value → Message
dict_or_empty (obj fs) = entries fs
dict_or_empty _ = []

-- v if isinstance(v, str)
abbrev pub as_str : Value → Option String
as_str (str s) = some s
as_str _ = none

-- v if isinstance(v, dict)
abbrev pub as_dict : Value → Option Message
as_dict (obj fs) = some (entries fs)
as_dict _ = none
