-- ===== src/Filters/Interests.antt =====
-- The interest that a filter declares, against the context of a message; and the preview.
use Prim.Native.Nat.{Ordering}
use Prim.Native.String.{compare as compare_text}
use python_yamp.Prelude.{
  String, Bool, true, false, ◌&&◌, ◌||◌, Option, none, some, List, [], ◌∷◌, map, leb, if◌then◌else◌,
  length, any, take, ◌==◌, elem, char_eq, nat_eq, string_eq, option_eq, pair_eq, ℤ, pos_part,
  int_eq,
}
use python_yamp.Json.{Value, null, str, Message, list, get_value, as_str}
use python_yamp.Prelude.Text.{starts_with}
use python_yamp.Routing.{ends_with, without_last}
use python_yamp.Callout.{Codec, Bytes}
use python_yamp.Content.{Block, blocks, dict_or_none}
use python_yamp.Filters.{Interest, Context, matches}

unfoldable pub mime_match : String → String → Bool
mime_match pattern mime =
    if elem pattern (mime ∷ "*" ∷ [])
    then true
    else ends_with pattern "/*" && starts_with mime (without_last pattern)

unfoldable pub matches_content : List String → List String → Bool
matches_content [] present = true
matches_content (d ∷ declared) present =
    elem "*" (d ∷ declared) || any (λ pattern. any (mime_match pattern) present) (d ∷ declared)

unfoldable pub interested : Interest → Context → Bool
interested interest context =
    matches interest.methods context.method
    && (matches interest.directions (some context.direction)
        && (matches interest.tools context.tool
            && matches_content interest.content_types context.types))

abbrev text_leb : String → String → Bool
text_leb a b = elim (compare_text a b) [ Ordering.gt ↦ false | _ ↦ true ]

-- sorted(set(…)), one text at a time
unfoldable pub insert_sorted : String → List String → List String
insert_sorted t [] = t ∷ []
insert_sorted t (s ∷ ss) =
    if t == s then s ∷ ss else if text_leb t s then t ∷ s ∷ ss else s ∷ insert_sorted t ss

-- A `mime` that is no text is not modelled: it counts as absent.
abbrev pub add_mime : Option String → List String → List String
add_mime none mimes = mimes
add_mime (some mime) mimes = if mime == "" then mimes else insert_sorted mime mimes

unfoldable pub mimes_of : List Block → List String
mimes_of [] = []
mimes_of (b ∷ bs) = add_mime (as_str b.mime) (mimes_of bs)

abbrev tool_of : Message → Option String → Option Message → Option (Option String)
tool_of message method none = none
tool_of message method (some params) =
    some (if method == some "tools/call" then as_str (get_value params "name") else none)

abbrev context_for :
    Option String → String → Option (Option String) → Option (List Block) → Option Context
context_for method direction none bs = none
context_for method direction (some tool) none = none
context_for method direction (some tool) (some bs) =
    some (record { method = method; direction = direction; tool = tool; types = mimes_of bs })

-- `message_context`; `none` where it raises, as `blocks` does, or for truthy `params` of a tool call
-- that are no dict
unfoldable pub message_context : Codec → Message → String → Option Context
message_context codec message direction =
    let method = as_str (get_value message "method") in
    context_for method direction
      (tool_of message method (
        if method == some "tools/call" then dict_or_none (get_value message "params") else some []))
      (blocks codec message)

abbrev name_or_null : Option String → Value
name_or_null none = null
name_or_null (some s) = str s

-- the context as a callout carries it
abbrev pub context_message : Context → Message
context_message context =
    ("method", name_or_null context.method)
    ∷ ("tool", name_or_null context.tool)
    ∷ ("direction", str context.direction)
    ∷ ("content_types", list (map (λ t. str t) context.types))
    ∷ []

-- the first bytes as they are offered, and `ieof`
unfoldable pub preview : Bytes → ℤ → Bytes × Bool
preview content n = (take (pos_part n) content, leb (length content) (pos_part n))
