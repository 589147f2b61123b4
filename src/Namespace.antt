-- ===== src/Namespace.antt =====
-- yamp/namespace.py: names and resource URIs under the backend's identifier.
pub mod Names
pub mod Uris
mod Tests
use Prim.Native.Char.{Char, code}
use Prim.Native.String.{[], ◌∷◌, ◌++◌}
use python_yamp.Prelude.{
  ℕ, String, Bool, true, not, ◌&&◌, ◌||◌, Option, none, some, leb, nat_beq, ◌==◌, string_eq,
  if◌then◌else◌,
}
use python_yamp.Prelude.Text.{partition, contains}

abbrev pub delimiter : String
delimiter = "__"

-- [A-Za-z0-9_-]
abbrev pub is_id_char : Char → Bool
is_id_char c =
    leb b'A' (code c) && leb (code c) b'Z'
    || leb b'a' (code c) && leb (code c) b'z'
    || leb b'0' (code c) && leb (code c) b'9'
    || nat_beq (code c) b'_'
    || nat_beq (code c) b'-'

unfoldable pub all_id_chars : String → Bool
all_id_chars [] = true
all_id_chars (c ∷ s) = is_id_char c && all_id_chars s

unfoldable pub valid_backend_id : String → Bool
valid_backend_id backend_id =
    not (backend_id == "") && all_id_chars backend_id && not (contains delimiter backend_id)

unfoldable pub prefix : String → String → String
prefix backend_id name = backend_id ++ (delimiter ++ name)

-- `None` for a text that carries no resolvable prefix
unfoldable pub split : String → Option (String × String)
split name = elim (partition delimiter name) [
  | none ↦ none
  | some (backend_id, original) ↦
      if backend_id == "" || original == "" then none else some (backend_id, original)
]

-- The id goes in front of the path, or behind the authority where `rest.partition("/")` finds no slash.
abbrev pub put_in_path : String → String → String → Option (String × String) → String
put_in_path scheme backend_id rest none = scheme ++ ("://" ++ (rest ++ ("/" ++ backend_id)))
put_in_path scheme backend_id rest (some (authority, path)) =
    scheme ++ ("://" ++ (authority ++ ("/" ++ (backend_id ++ ("/" ++ path)))))

unfoldable pub prefix_uri : String → String → String
prefix_uri backend_id uri = elim (partition "://" uri) [
  | none ↦ uri
  | some (scheme, rest) ↦ put_in_path scheme backend_id rest (partition "/" rest)
]

-- The last argument is `path.partition("/")`.
abbrev pub take_from_path :
    String → String → String → Option (String × String) → Option (String × String)
take_from_path scheme authority path none =
    if path == "" then none else some (path, scheme ++ ("://" ++ authority))
take_from_path scheme authority path (some (backend_id, remainder)) =
    if backend_id == ""
    then none
    else some (backend_id, scheme ++ ("://" ++ (authority ++ ("/" ++ remainder))))

unfoldable pub split_uri : String → Option (String × String)
split_uri uri = elim (partition "://" uri) [
  | none ↦ none
  | some (scheme, rest) ↦ elim (partition "/" rest) [
    | none ↦ none
    | some (authority, path) ↦ take_from_path scheme authority path (partition "/" path)
  ]
]
