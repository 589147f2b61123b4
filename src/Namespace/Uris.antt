-- ===== src/Namespace/Uris.antt =====
-- A namespaced resource URI is split into the backend and the URI that it was made of.
use Prim.Native.String.{[], ◌∷◌, ◌++◌}
use text.Mathlib.TextLemmas.{nil-append, cons-append}
use python_yamp.Prelude.{
  String, true, none, some, string_eq, ◌≡◌, ◌≢◌, refl, ap, ◌∙◌, arith, eq_iff, inl, inr,
  Option-cases,
}
use python_yamp.Prelude.Text.{
  strip_prefix, cons_first, partition, partition_miss, partition_sound, partition-append,
  partition_replace,
}
use python_yamp.Namespace.{
  all_id_chars, valid_backend_id, prefix_uri, split_uri, put_in_path, take_from_path,
}

-- An identifier holds no slash, so what is behind it starts at the first one.
partition-id :
    (id rest : String)
    → all_id_chars id ≡ true
    → partition "/" (id ++ ("/" ++ rest)) ≡ some (id, rest)
unfolding all_id_chars strip_prefix
partition-id [] rest h = rw nil-append (partition-append _ _ rest)
partition-id (c ∷ s) rest h =
    rw cons-append (
      partition_miss "/" c _ (ground arith)
      ∙ ap (cons_first c) (partition-id s rest (ground arith)))

partition-id_none : (id : String) → all_id_chars id ≡ true → partition "/" id ≡ none
unfolding all_id_chars strip_prefix partition
partition-id_none [] h = refl
partition-id_none (c ∷ s) h =
    partition_miss "/" c _ (ground arith) ∙ ap (cons_first c) (partition-id_none s (ground arith))

valid_parts : (id : String) → valid_backend_id id ≡ true → (id ≢ "") × (all_id_chars id ≡ true)
unfolding valid_backend_id
valid_parts id h = ground (arith, eq_iff id "")

partition-append_none :
    (s w : String) → partition "/" s ≡ none → partition "/" (s ++ ("/" ++ w)) ≡ some (s, w)
unfolding partition strip_prefix
partition-append_none [] w h = rw nil-append (partition-append _ _ w)
partition-append_none (c ∷ s) w h = rw cons-append (
    partition_miss "/" c _ (ground arith)
    ∙ ap (cons_first c) (partition-append_none s w (ground arith)))

split_uri_lem :
    (uri scheme rest authority path : String)
    → partition "://" uri ≡ some (scheme, rest)
    → partition "/" rest ≡ some (authority, path)
    → split_uri uri ≡ take_from_path scheme authority path (partition "/" path)
unfolding split_uri
split_uri_lem uri scheme rest authority path h k = rw (h, split_uri) (rw (k, split_uri))

prefix_uri_lem :
    (id uri scheme rest : String)
    → partition "://" uri ≡ some (scheme, rest)
    → prefix_uri id uri ≡ put_in_path scheme id rest (partition "/" rest)
unfolding prefix_uri
prefix_uri_lem id uri scheme rest h = rw (h, prefix_uri)

module _ (id uri scheme rest : String) (v : valid_backend_id id ≡ true)
    (h : partition "://" uri ≡ some (scheme, rest)) where
  -- behind the authority
  no_slash : partition "/" rest ≡ none → split_uri (prefix_uri id uri) ≡ some (id, uri)
  no_slash k =
      let (full, plain) = valid_parts id v in
      rw (prefix_uri_lem id uri scheme rest h, k)
        (split_uri_lem _ scheme (rest ++ ("/" ++ id)) rest id
            (partition_replace _ _ uri scheme rest (rest ++ ("/" ++ id)) h)
            (partition-append_none rest id k)
          ∙ rw (partition-id_none id plain)
              (ground (arith, eq_iff id "", partition_sound "://" uri scheme rest h)))

  -- in front of the path
  with_slash :
      (authority path : String)
      → partition "/" rest ≡ some (authority, path)
      → split_uri (prefix_uri id uri) ≡ some (id, uri)
  with_slash authority path k =
      let (full, plain) = valid_parts id v in
      let under = authority ++ ("/" ++ (id ++ ("/" ++ path))) in
      rw (prefix_uri_lem id uri scheme rest h, k)
        (split_uri_lem _ scheme under authority (id ++ ("/" ++ path))
            (partition_replace _ _ uri scheme rest under h)
            (partition_replace _ _ rest authority path (id ++ ("/" ++ path)) k)
          ∙ rw (partition-id id path plain) (
              ground (
                arith,
                eq_iff id "",
                partition_sound "://" uri scheme rest h,
                partition_sound "/" rest authority path k,
              )))

-- A URI with a scheme, under a valid identifier, is split into the two again.
pub split_uri-prefix_uri :
    (id uri scheme rest : String)
    → valid_backend_id id ≡ true
    → partition "://" uri ≡ some (scheme, rest)
    → split_uri (prefix_uri id uri) ≡ some (id, uri)
split_uri-prefix_uri id uri scheme rest v h = elim (Option-cases (partition "/" rest)) [
  | inl k ↦ no_slash id uri scheme rest v h k
  | inr ((authority, path), k) ↦ with_slash id uri scheme rest v h authority path k
]
