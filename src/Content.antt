-- ===== src/Content.antt =====
-- yamp/content.py: the content blocks of a message, and the writes at a block's path.
mod Tests
pub mod Paths
pub mod Single
pub mod Blocks
use python_yamp.Prelude.{
  ℕ, zero, suc, ◌+◌, ◌-◌, ◌*◌, ◌≤◌, ◌<◌, String, ◌≡◌, refl, sym, ap, ◌∙◌, subst, ◌≢◌, ◌↔◌, ◌⊎◌, inl,
  inr, Bool, true, false, not, ◌&&◌, ◌||◌, Option, none, some, List, [], ◌∷◌, ◌++◌, map, arith,
  eq_iff, eq_refl, ltb, leb, nat_beq, if◌then◌else◌, is_some, Bool-cases, Option-cases,
  some_injective, length, all, any, take, keep, length-append, All, All-append, Eq, ◌==◌, beq_refl,
  elem, int_beq_iff, char_beq_iff, char_eq, nat_eq, string_eq, option_eq, pair_eq, ℤ, pos, negsuc,
  pos_part, neg_part, ◌+ℤ◌, ◌≤ℤ◌, ltb_ℤ, leb_ℤ, int_eq,
}
use python_yamp.Prelude.Dict.{
  Dict, get, has, insert, remove, update, get_or, get-insert, get-remove, get-insert_self, keys,
  values, dict_laws,
}
use python_yamp.Json.{
  Value, null, bool, num, str, arr, obj, Items, nil, cons, Fields, end, field, Message, entries,
  of_entries, items, of_items, entries-of_entries, items-of_items, dict, list, get_value,
  dict_or_empty, as_str, as_dict,
}
use python_yamp.Callout.{Bytes, Codec, decode_hex}

pub data Segment : Type 0 where
  key : String → Segment
  index : ℕ → Segment

abbrev pub PathTo : Type 0
PathTo = List Segment

-- A descriptor: `mime`, `uri` and `text` are the item's values, None where it has none.
pub record Block : Type 0 where
  pub kind : String
  pub path : PathTo
  pub mime : Value
  pub uri : Value
  pub text : Value
  pub bytes : Value

-- what Python takes as false
abbrev pub falsy : Value → Bool
falsy null = true
falsy (bool b) = not b
falsy (num n) = n == pos 0
falsy (str s) = s == ""
falsy (arr nil) = true
falsy (arr vs) = false
falsy (obj end) = true
falsy (obj fs) = false

abbrev pub truthy_items : Value → Option (List Value)
truthy_items (arr vs) = some (items vs)
truthy_items _ = none

-- the items of `v or []`; `none` where the loop over them raises: a number is not iterable, and the
-- members of a text or the keys of a dict have no `get`
unfoldable pub items_or_none : Value → Option (List Value)
items_or_none v = if falsy v then some [] else truthy_items v

-- `v or {}`; `none` where it has no `get`
unfoldable pub dict_or_none : Value → Option Message
dict_or_none v = if falsy v then some [] else as_dict v

unfoldable pub resource_block : Codec → PathTo → Message → List Block
resource_block codec base resource = elim (get resource "text") [
  | some text ↦
      (record {
        kind = "resource";
        path = base ++ (key "text" ∷ []);
        mime = get_value resource "mimeType";
        uri = get_value resource "uri";
        text = text;
        bytes = null;
      }
        ∷ [])
  | none ↦ elim (get resource "blob") [
    | some blob ↦
        (record {
          kind = "resource";
          path = base ++ (key "blob" ∷ []);
          mime = get_value resource "mimeType";
          uri = get_value resource "uri";
          text = null;
          bytes = decode_hex codec blob;
        }
          ∷ [])
    | none ↦ []
  ]
]

abbrev pub resource_blocks : Codec → PathTo → Option Message → Option (List Block)
resource_blocks codec base none = none
resource_blocks codec base (some resource) = some (resource_block codec base resource)

-- a descriptor of an item that holds its own payload
unfoldable pub own_block : Codec → PathTo → Message → String → Block
own_block codec base item kind =
    if kind == "text"
    then record {
      kind = kind;
      path = base ++ (key "text" ∷ []);
      mime = null;
      uri = null;
      text = get_value item "text";
      bytes = null;
    }
    else if kind == "image" || kind == "audio"
    then record {
      kind = kind;
      path = base ++ (key "data" ∷ []);
      mime = get_value item "mimeType";
      uri = null;
      text = null;
      bytes = decode_hex codec (get_value item "data");
    }
    else if kind == "resource_link"
    then record {
      kind = kind;
      path = base ++ (key "uri" ∷ []);
      mime = get_value item "mimeType";
      uri = get_value item "uri";
      text = null;
      bytes = null;
    }
    else record {
      kind = "unknown";
      path = base;
      mime = null;
      uri = null;
      text = null;
      bytes = null;
    }

-- `item.get("type")` as a text; a value that is none is no known type
abbrev pub type_of : Message → String
type_of item = elim (as_str (get_value item "type")) [ none ↦ "" | some kind ↦ kind ]

unfoldable pub content_block : Codec → PathTo → Message → Option (List Block)
content_block codec base item =
    if type_of item == "resource"
    then resource_blocks codec (base ++ (key "resource" ∷ []))
        (dict_or_none (get_value item "resource"))
    else some (own_block codec base item (type_of item) ∷ [])

-- an item of a `contents` list, which is a resource
unfoldable pub contents_block : Codec → PathTo → Message → Option (List Block)
contents_block codec base item = some (resource_block codec base item)

abbrev pub both : Option (List Block) → Option (List Block) → Option (List Block)
both none later = none
both (some bs) none = none
both (some bs) (some cs) = some (bs ++ cs)

abbrev pub item_blocks :
    (PathTo → Message → Option (List Block)) → PathTo → Option Message → Option (List Block)
item_blocks of_item base none = none
item_blocks of_item base (some item) = of_item base item

-- the loop of `blocks` over the items of one list, from an index on
unfoldable pub enumerated :
    (PathTo → Message → Option (List Block)) → String → ℕ → List Value → Option (List Block)
enumerated of_item name n [] = some []
enumerated of_item name n (v ∷ vs) =
    both (item_blocks of_item (key "result" ∷ key name ∷ index n ∷ []) (as_dict v))
      (enumerated of_item name (suc n) vs)

abbrev pub list_blocks :
    (PathTo → Message → Option (List Block)) → String → Option (List Value) → Option (List Block)
list_blocks of_item name none = none
list_blocks of_item name (some vs) = enumerated of_item name 0 vs

-- `blocks` of a result that is a dict
unfoldable pub result_blocks : Codec → Message → Option (List Block)
result_blocks codec r =
    both (list_blocks (content_block codec) "content" (items_or_none (get_value r "content")))
      (list_blocks (contents_block codec) "contents" (items_or_none (get_value r "contents")))

abbrev pub blocks_of : Codec → Option Message → Option (List Block)
blocks_of codec none = some []
blocks_of codec (some r) = result_blocks codec r

-- `blocks`; `none` where it raises
unfoldable pub blocks : Codec → Message → Option (List Block)
blocks codec message = blocks_of codec (as_dict (get_value message "result"))

abbrev pub nth : List Value → ℕ → Option Value
nth [] n = none
nth (v ∷ vs) zero = some v
nth (v ∷ vs) (suc n) = nth vs n

abbrev pub set_nth : List Value → ℕ → Value → List Value
set_nth [] n w = []
set_nth (v ∷ vs) zero w = w ∷ vs
set_nth (v ∷ vs) (suc n) w = v ∷ set_nth vs n w

-- what a container holds in a slot
abbrev pub child : Value → Segment → Option Value
child (obj fs) (key k) = get (entries fs) k
child (arr vs) (index n) = nth (items vs) n
child _ s = none

-- container[key] = v
abbrev pub put_child : Value → Segment → Value → Value
put_child (obj fs) (key k) v = dict (insert (entries fs) k v)
put_child (arr vs) (index n) v = list (set_nth (items vs) n v)
put_child root s v = root

abbrev pub put_back : Value → Segment → Option Value → Option Value
put_back root s none = none
put_back root s (some v) = some (put_child root s v)

-- The slot that `_navigate` finds, overwritten in a copy; `none` where there is none. No block has the
-- empty path, on which `_navigate` raises.
unfoldable pub write_at : Value → PathTo → Value → Option Value
write_at root [] v = some v
write_at root (s ∷ path) v =
    put_back root s (elim (child root s) [ none ↦ none | some c ↦ write_at c path v ])

unfoldable pub set_value : Message → PathTo → Value → Message
set_value message path v = elim (write_at (dict message) path v) [
  | none ↦ message
  | some w ↦ dict_or_empty w
]

unfoldable pub set_text : Message → PathTo → String → Message
set_text message path text = set_value message path (str text)

unfoldable pub set_bytes : Codec → Message → PathTo → Bytes → Message
set_bytes codec message path bytes = set_value message path (str (codec.b64encode bytes))
