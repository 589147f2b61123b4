-- ===== src/Namespace/Names.antt =====
-- When a prefixed name is split into the backend and the name that it was made of.
use Prim.Native.Char.{Char, code}
use Prim.Native.String.{[], ◌∷◌, ◌++◌}
use text.Mathlib.TextLemmas.{nil-append, cons-append, append_assoc, cons≢nil}
use python_yamp.Prelude.{
  String, Bool, true, false, none, some, nat_beq, string_eq, ◌≡◌, ◌≢◌, refl, sym, ap, ◌∙◌, arith,
  eq_iff, char_beq_iff,
}
use python_yamp.Prelude.Text.{
  strip_prefix, cons_first, partition, contains, partition_miss, partition-append,
}
use python_yamp.Namespace.{delimiter, valid_backend_id, prefix, split}

-- The last character is the delimiter's.
abbrev pub ends_low : String → Bool
ends_low [] = false
ends_low (c ∷ []) = nat_beq (code c) b'_'
ends_low (c ∷ (d ∷ s)) = ends_low (d ∷ s)

-- At a character of an identifier that holds no delimiter and does not end in "_", none begins.
no_delimiter_at :
    (c : Char) (s w : String)
    → contains delimiter (c ∷ s) ≡ false
    → ends_low (c ∷ s) ≡ false
    → strip_prefix delimiter (c ∷ (s ++ w)) ≡ none
unfolding contains strip_prefix
no_delimiter_at c [] w h e = ground arith
no_delimiter_at c (d ∷ s) w h e = rw cons-append (ground arith)

partition-prefix :
    (id name : String)
    → contains delimiter id ≡ false
    → ends_low id ≡ false
    → partition delimiter (id ++ (delimiter ++ name)) ≡ some (id, name)
unfolding contains strip_prefix
partition-prefix [] name h e = rw nil-append (partition-append _ _ name)
partition-prefix (c ∷ []) name h e = rw cons-append (
    partition_miss delimiter c _ (no_delimiter_at c [] (delimiter ++ name) h e)
    ∙ ap (cons_first c) (partition-prefix [] name refl refl))
partition-prefix (c ∷ (d ∷ s)) name h e = rw cons-append (
    partition_miss delimiter c _ (no_delimiter_at c (d ∷ s) (delimiter ++ name) h e)
    ∙ ap (cons_first c) (partition-prefix (d ∷ s) name (ground arith) e))

-- The characters in front of a last "_".
abbrev pub front : String → String
front [] = []
front (c ∷ []) = []
front (c ∷ (d ∷ s)) = c ∷ front (d ∷ s)

front_sound : (id : String) → ends_low id ≡ true → id ≡ front id ++ "_"
front_sound [] h = cc
front_sound (c ∷ []) h = rw nil-append (ap (λ e. e ∷ []) ((char_beq_iff c _).0 h))
front_sound (c ∷ (d ∷ s)) h = rw cons-append (ap (◌∷◌ c) (front_sound (d ∷ s) h))

ends_low-front :
    (id : String) → contains delimiter id ≡ false → ends_low id ≡ true → ends_low (front id) ≡ false
unfolding contains strip_prefix
ends_low-front [] h e = refl
ends_low-front (c ∷ []) h e = refl
ends_low-front (c ∷ (d ∷ [])) h e = ground arith
ends_low-front (c ∷ (d ∷ (d' ∷ s))) h e = ends_low-front (d ∷ (d' ∷ s)) (ground arith) e

contains-front :
    (id : String) → contains delimiter id ≡ false → contains delimiter (front id) ≡ false
unfolding contains strip_prefix
contains-front [] h = refl
contains-front (c ∷ []) h = refl
contains-front (c ∷ (d ∷ [])) h = ground arith
contains-front (c ∷ (d ∷ (d' ∷ s))) h = ground (arith, contains-front (d ∷ (d' ∷ s)))

-- A split that is not refused.
split_of_partition :
    (name id original : String)
    → id ≢ ""
    → original ≢ ""
    → partition delimiter name ≡ some (id, original)
    → split name ≡ some (id, original)
unfolding split
split_of_partition name id original h k e =
    rw (e, split) (ground (arith, eq_iff id "", eq_iff original ""))

valid-delimiter :
    (id : String) → valid_backend_id id ≡ true → (id ≢ "") × (contains delimiter id ≡ false)
unfolding valid_backend_id
valid-delimiter id h = ground (arith, eq_iff id "")

-- A name that is not empty, under a valid identifier that does not end in "_", is split into the two
-- again.
pub split-prefix :
    (id name : String)
    → valid_backend_id id ≡ true
    → ends_low id ≡ false
    → name ≢ ""
    → split (prefix id name) ≡ some (id, name)
unfolding prefix
split-prefix id name v e h =
    let (full, plain) = valid-delimiter id v in
    split_of_partition _ id name full h (partition-prefix id name plain e)

one_low : (s : String) → "_" ++ s ≡ "_" ∷ s
one_low s = cons-append "_" "" s ∙ ap (◌∷◌ "_") (nil-append s)

low_swap : (name : String) → "_" ++ (delimiter ++ name) ≡ delimiter ++ ("_" ++ name)
low_swap name =
    one_low (delimiter ++ name)
    ∙ (ap (◌∷◌ "_") (cons-append "_" "_" name ∙ sym (one_low ("_" ++ name)))
        ∙ sym (cons-append "_" "_" ("_" ++ name)))

low_append :
    (id name : String)
    → ends_low id ≡ true
    → prefix id name ≡ front id ++ (delimiter ++ ("_" ++ name))
unfolding prefix
low_append id name e =
    ap (λ s. s ++ (delimiter ++ name)) (front_sound id e)
    ∙ (append_assoc (front id) "_" (delimiter ++ name) ∙ ap (λ s. front id ++ s) (low_swap name))

low_ne_empty : (name : String) → "_" ++ name ≢ ""
low_ne_empty name h = cons≢nil (rw cons-append at h)

front_ne_empty : (id : String) → ends_low id ≡ true → id ≢ "_" → front id ≢ ""
front_ne_empty id e h p = h (front_sound id e ∙ ap (λ s. s ++ "_") p ∙ nil-append "_")

-- Under a valid identifier that ends in "_", and is not "_" alone, the name goes to what stands in
-- front of that "_", and the "_" to the name.
pub split-prefix_low :
    (id name : String)
    → valid_backend_id id ≡ true
    → ends_low id ≡ true
    → id ≢ "_"
    → split (prefix id name) ≡ some (front id, "_" ++ name)
split-prefix_low id name v e h =
    let (full, plain) = valid-delimiter id v in
    rw (low_append id name e) (
      split_of_partition _ (front id) ("_" ++ name) (front_ne_empty id e h) (low_ne_empty name) (
        partition-prefix (front id) ("_" ++ name) (contains-front id plain)
          (ends_low-front id plain e)))
