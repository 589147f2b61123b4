-- ===== src/Variants/Cursors.antt =====
-- The composite cursor gives back what it was made of.
use python_yamp.Prelude.{
  String, ◌≡◌, refl, ap, ◌∙◌, Option, none, some, [], ◌∷◌, char_eq, nat_eq, string_eq, option_eq,
  pair_eq, int_eq,
}
use python_yamp.Prelude.Dict.{Dict, get}
use python_yamp.Json.{Value, str, Message, entries-of_entries, dict, as_str, as_dict}
use python_yamp.Prelude.Text.{strip_prefix-append}
use python_yamp.Variants.{
  payload, or_null, cursor_prefix, str_values, cursor_body, bind_cursor, texts_of, cursor_of,
  read_body, unprefixed, resolve_cursor,
}

as_str-or_null : (variant : Option String) → as_str (or_null variant) ≡ variant
as_str-or_null none = refl
as_str-or_null (some s) = refl

texts_of-str_values : (cursors : Dict String String) → texts_of (str_values cursors) ≡ cursors
unfolding texts_of
texts_of-str_values [] = refl
texts_of-str_values ((k, s) ∷ cursors) = ap (◌∷◌ (k, s)) (texts_of-str_values cursors)

read_body-cursor_body :
    (variant : Option String) (cursors : Dict String String)
    → read_body (some (cursor_body variant cursors)) ≡ some (variant, cursors)
unfolding get
read_body-cursor_body variant cursors =
    ap (λ m. cursor_of (cursor_body variant cursors) (some m))
      (entries-of_entries (str_values cursors))
    ∙ ap (λ v. some (v, texts_of (str_values cursors))) (as_str-or_null variant)
    ∙ ap (λ cs. some (variant, cs)) (texts_of-str_values cursors)

-- A composite cursor that the proxy mints is resolved to the variant and the backends' cursors that it was
-- minted with, where the JSON text of its body is read back as it was written.
pub resolve_cursor-bind_cursor :
    (hexed : Message → String) (unhexed : String → Option Value) (variant : Option String)
    (cursors : Dict String String)
    → unhexed (hexed (cursor_body variant cursors)) ≡ some (dict (cursor_body variant cursors))
    → resolve_cursor unhexed (str (bind_cursor hexed variant cursors)) ≡ some (variant, cursors)
unfolding resolve_cursor bind_cursor
resolve_cursor-bind_cursor hexed unhexed variant cursors h =
    ap (unprefixed unhexed)
      (strip_prefix-append cursor_prefix (hexed (cursor_body variant cursors)))
    ∙ ap
        (λ o. elim o as (λ _. Option (Option String × Dict String String)) [
          | none ↦ none
          | some payload ↦ read_body (as_dict payload)
        ])
        h
    ∙ ap (λ m. read_body (some m)) (entries-of_entries (cursor_body variant cursors))
    ∙ read_body-cursor_body variant cursors
