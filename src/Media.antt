-- ===== src/Media.antt =====
-- yamp/media.py: the media type of an answer.
use python_yamp.Prelude.{
  String, Bool, false, not, ◌&&◌, ◌||◌, Option, none, some, List, map, if◌then◌else◌, ◌==◌, elem,
  char_eq, nat_eq, string_eq, option_eq, pair_eq, int_eq,
}
use python_yamp.Prelude.Text.{partition}

abbrev pub mcp_json : String
mcp_json = "application/mcp+json"

abbrev pub plain_json : String
plain_json = "application/json"

-- part.split(";", 1)[0]
abbrev pub without_params : String → String
without_params part = elim (partition ";" part) [ none ↦ part | some (kind, rest) ↦ kind ]

-- `strip` is `str.strip`, and `split_commas` is `split(",")`
module _ (strip : String → String) (split_commas : String → List String) where
  unfoldable pub media_tokens : String → List String
  media_tokens header = map (λ part. strip (without_params part)) (split_commas header)

  unfoldable pub response_content_type : Option String → String
  response_content_type none = plain_json
  response_content_type (some accept) =
      let tokens = media_tokens accept in
      if accept == ""
      then plain_json
      else if elem mcp_json tokens || elem "application/*" tokens || elem "*/*" tokens
      then mcp_json
      else plain_json

  unfoldable pub is_mcp_json : Option String → Bool
  is_mcp_json none = false
  is_mcp_json (some content_type) =
      not (content_type == "") && strip (without_params content_type) == mcp_json
