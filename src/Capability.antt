-- ===== src/Capability.antt =====
-- yamp/capability.py: how the surfaces of several backends are composed, and progressive disclosure.
pub mod Composition
use python_yamp.Prelude.{
  ℕ, zero, suc, ◌+◌, ◌-◌, ◌*◌, ◌≤◌, ◌<◌, String, ◌≡◌, refl, sym, ap, ◌∙◌, subst, ◌≢◌, ◌↔◌, ◌⊎◌, inl,
  inr, Bool, true, false, not, ◌&&◌, ◌||◌, Option, none, some, List, [], ◌∷◌, ◌++◌, map, arith,
  eq_iff, eq_refl, ltb, leb, nat_beq, if◌then◌else◌, is_some, Bool-cases, Option-cases,
  some_injective, length, all, any, take, keep, length-append, All, All-append, Eq, ◌==◌, beq_refl,
  elem, int_beq_iff, char_beq_iff, char_eq, nat_eq, string_eq, option_eq, pair_eq, ℤ, pos, negsuc,
  pos_part, neg_part, ◌+ℤ◌, ◌≤ℤ◌, ltb_ℤ, leb_ℤ, int_eq,
}
use python_yamp.Prelude.Dict.{
  Dict, get, has, insert, remove, update, get_or, get-insert, get-remove, get-insert_self, keys,
  values, dict_laws,
}
use python_yamp.Prelude.Text.{contains}
use python_yamp.Json.{
  Value, null, bool, num, str, arr, obj, Items, nil, cons, Fields, end, field, Message, entries,
  of_entries, items, of_items, entries-of_entries, items-of_items, of_entries-entries, dict, list,
  get_value, dict_or_empty, as_str, as_dict,
}

-- a tool and its `tool["name"]`, which is a text
pub record NamedTool : Type 0 where
  pub name : String
  pub tool : Message

abbrev pub search_tool : String
search_tool = "proxy__search_tools"

unfoldable pub search_tool_definition : Message
search_tool_definition =
    ("name", str search_tool)
    ∷ ("description", str "Search for additional tools available through this proxy")
    ∷ (
      "inputSchema",
      dict (
          ("type", str "object")
          ∷ (
            "properties",
            dict (
                (
                  "query",
                  dict (
                      ("type", str "string")
                      ∷ ("description", str "Keyword to search tool names and descriptions")
                      ∷ []),
                )
                ∷ []),
          )
          ∷ ("required", list (str "query" ∷ []))
          ∷ []),
    )
    ∷ []

-- compose(mode="union")
unfoldable pub union : List (List NamedTool) → List NamedTool
union [] = []
union (b ∷ bs) = b ++ union bs

-- whether every backend has a tool of the name
abbrev pub common : List (List NamedTool) → String → Bool
common bs name = all (λ b. any (λ t. t.name == name) b) bs

-- the first of each name that passes, in order; `seen` are the names taken
unfoldable pub firsts : (String → Bool) → List String → List NamedTool → List NamedTool
firsts p seen [] = []
firsts p seen (t ∷ ts) =
    let taken = firsts p (t.name ∷ seen) ts in
    let passed = firsts p seen ts in
    if p t.name && not (elem t.name seen) then t ∷ taken else passed

-- compose(mode="intersection")
unfoldable pub intersection : List (List NamedTool) → List NamedTool
intersection bs = firsts (common bs) [] (union bs)

-- compose(mode="curated")
unfoldable pub curated : List String → List (List NamedTool) → List NamedTool
curated allowed bs = keep (λ t. elem t.name allowed) (union bs)

-- `none` is a mode that is not known
unfoldable pub compose : List (List NamedTool) → String → List String → Option (List NamedTool)
compose bs mode allowed =
    if mode == "union"
    then some (union bs)
    else if mode == "intersection"
    then some (intersection bs)
    else if mode == "curated"
    then some (curated allowed bs)
    else none

-- the tools advertised, and whether the search tool was added
unfoldable pub disclose : List NamedTool → ℕ → List NamedTool × Bool
disclose tools threshold =
    if ltb threshold (length tools)
    then (
      take threshold tools ++ (record { name = search_tool; tool = search_tool_definition } ∷ []),
      true,
    )
    else (tools, false)

-- merged.update(value) where the value is a dict
abbrev pub merge_value : Message → Value → Message
merge_value merged (obj fs) = update merged (entries fs)
merge_value merged _ = merged

-- the flags of a primitive over the backends that have it; `none` where no backend has
unfoldable pub merge_primitive : String → List Message → Option Message → Option Message
merge_primitive primitive [] merged = merged
merge_primitive primitive (caps ∷ rest) merged =
    merge_primitive primitive rest (elim (get caps primitive) [
      | none ↦ merged
      | some v ↦ some (merge_value (elim merged [ none ↦ [] | some m ↦ m ]) v)
    ])

unfoldable pub merge_primitives : List String → List Message → Message → Message
merge_primitives [] backend_caps composed = composed
merge_primitives (p ∷ ps) backend_caps composed =
    merge_primitives ps backend_caps (elim (merge_primitive p backend_caps none) [
      | none ↦ composed
      | some merged ↦ insert composed p (dict merged)
    ])

-- extensions.setdefault(name, value) for each entry
unfoldable pub set_defaults : Message → Message → Message
set_defaults extensions [] = extensions
set_defaults extensions ((k, v) ∷ m) =
    set_defaults (if has extensions k then extensions else insert extensions k v) m

-- An `extensions` that is not a dict counts as empty; unless it is falsy, the source raises there.
unfoldable pub merge_extensions : List Message → Message → Message
merge_extensions [] extensions = extensions
merge_extensions (caps ∷ rest) extensions =
    merge_extensions rest (set_defaults extensions (dict_or_empty (get_value caps "extensions")))

-- elicitation follows the client
abbrev pub elicited : Option Message → Message → Message
elicited none composed = composed
elicited (some caps) composed = elim (get caps "elicitation") [
  | none ↦ composed
  | some v ↦ insert composed "elicitation" v
]

abbrev pub extended : Message → Message → Message
extended [] composed = composed
extended (e ∷ es) composed = insert composed "extensions" (dict (e ∷ es))

unfoldable pub compose_capabilities : List Message → Option Message → Message
compose_capabilities backend_caps client_caps = extended (merge_extensions backend_caps []) (
    elicited client_caps (
      merge_primitives ("tools" ∷ "resources" ∷ "prompts" ∷ "logging" ∷ "sampling" ∷ [])
        backend_caps []))

-- needle in tool["name"].lower() or needle in tool.get("description", "").lower(); `none` where the
-- description is no text. `lower` is `str.lower`.
unfoldable pub found_by : (String → String) → String → NamedTool → Option Bool
found_by lower needle t =
    if contains needle (lower t.name)
    then some true
    else elim (as_str (get_or t.tool "description" (str ""))) [
      | none ↦ none
      | some text ↦ some (contains needle (lower text))
    ]

unfoldable pub found_tools : (String → String) → String → List NamedTool → Option (List NamedTool)
found_tools lower needle [] = some []
found_tools lower needle (t ∷ ts) =
    add_found t (found_by lower needle t) (found_tools lower needle ts)
  where
    add_found : NamedTool → Option Bool → Option (List NamedTool) → Option (List NamedTool)
    add_found t none found = none
    add_found t (some hit) none = none
    add_found t (some hit) (some ts) = some (if hit then t ∷ ts else ts)

unfoldable pub search_tools : (String → String) → String → List NamedTool → Option (List NamedTool)
search_tools lower query tools = found_tools lower (lower query) tools
