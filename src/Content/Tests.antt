-- ===== src/Content/Tests.antt =====
-- A write to a text block.
use python_yamp.Prelude.{
  ◌≡◌, refl, true, some, [], ◌∷◌, char_eq, nat_eq, string_eq, option_eq, pair_eq, int_eq,
}
use python_yamp.Prelude.Dict.{get}
use python_yamp.Json.{null, str, Message, dict, list}
use python_yamp.Callout.Tests.{tiny_codec}
use python_yamp.Content.{
  key, index, PathTo, Block, items_or_none, own_block, content_block, enumerated, result_blocks,
  blocks, set_text,
}
use python_yamp.Content.Paths.{read_at, apart}
use python_yamp.Content.Blocks.{set_text-blocks}

abbrev text_message : Message
text_message =
    (
      "result",
      dict (("content", list (dict (("type", str "text") ∷ ("text", str "hi") ∷ []) ∷ [])) ∷ []),
    )
    ∷ []

abbrev text_block : Block
text_block = record {
  kind = "text";
  path = key "result" ∷ key "content" ∷ index 0 ∷ key "text" ∷ [];
  mime = null;
  uri = null;
  text = str "hi";
  bytes = null;
}

set_text-blocks_example :
    (read_at (dict (set_text text_message text_block.path "ho")) text_block.path ≡ some (str "ho"))
    × ((q : PathTo)
        → apart text_block.path q ≡ true
        → read_at (dict (set_text text_message text_block.path "ho")) q
          ≡ read_at (dict text_message) q)
unfolding blocks result_blocks enumerated content_block own_block items_or_none get
set_text-blocks_example =
    set_text-blocks tiny_codec text_message [] [] text_block "hi" "ho" refl refl
