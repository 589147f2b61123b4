-- ===== src/Namespace/Tests.antt =====
-- The namespacing theorems on concrete names.
use python_yamp.Prelude.{
  ◌≡◌, refl, some, arith, eq_iff, nat_eq, string_eq, option_eq, pair_eq, int_eq,
}
use python_yamp.Namespace.Names.{split-prefix, split-prefix_low}
use python_yamp.Namespace.Uris.{split_uri-prefix_uri}
use python_yamp.Prelude.Text.{contains, strip_prefix, partition}
use python_yamp.Namespace.{valid_backend_id, all_id_chars, prefix, split, prefix_uri, split_uri}

split-prefix_example : split (prefix "github" "create_issue") ≡ some ("github", "create_issue")
unfolding valid_backend_id all_id_chars contains strip_prefix
split-prefix_example =
    split-prefix "github" "create_issue" refl refl (ground (arith, eq_iff "create_issue" ""))

split-prefix_low_example : split (prefix "a_" "x") ≡ some ("a", "_x")
unfolding valid_backend_id all_id_chars contains strip_prefix
split-prefix_low_example = split-prefix_low "a_" "x" refl refl (ground (arith, eq_iff "a_" "_"))

split_uri-prefix_uri_example :
    split_uri (prefix_uri "docs" "file:///readme") ≡ some ("docs", "file:///readme")
unfolding valid_backend_id all_id_chars partition contains strip_prefix
split_uri-prefix_uri_example =
    split_uri-prefix_uri "docs" "file:///readme" "file" "/readme" refl refl
