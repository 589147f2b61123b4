-- ===== src/Content/Blocks.antt =====
-- The path of a block leads to its text, and a write there replaces that text alone.
use python_yamp.Prelude.{
  ℕ, suc, ◌+◌, String, ◌≡◌, refl, ap, subst, Bool, true, false, not, Option, none, some, List, [],
  ◌∷◌, ◌++◌, arith, if◌then◌else◌, some_injective, All, ◌==◌, char_eq, nat_eq, string_eq, option_eq,
  pair_eq, pos, int_eq,
}
use python_yamp.Prelude.Dict.{insert}
use python_yamp.Json.{
  Value, null, bool, num, str, arr, obj, nil, cons, Fields, end, field, Message, entries,
  of_entries, items, entries-of_entries, of_entries-entries, dict, get_value, dict_or_empty,
  as_dict,
}
use python_yamp.Callout.{Codec}
use python_yamp.Content.{
  Segment, key, index, PathTo, Block, items_or_none, content_block, contents_block, item_blocks,
  enumerated, list_blocks, result_blocks, blocks_of, blocks, nth, child, put_back, write_at,
  set_value, set_text,
}
use python_yamp.Content.Paths.{read_at, apart, Written, write_at-Written}
use python_yamp.Content.Single.{
  Addressed, Leads, AllAddressed, both-AllAddressed, get-get_value, resource_block-AllAddressed,
  Leads-child, content_block-AllAddressed,
}

abbrev Good : Value → (PathTo → Message → Option (List Block)) → Type 0
Good root of_item =
    (base : PathTo) (fs : Fields)
    → Leads root base (obj fs)
    → AllAddressed root (of_item base (entries fs))

item_blocks-AllAddressed :
    (root : Value) (of_item : PathTo → Message → Option (List Block)) (base : PathTo) (v : Value)
    → Good root of_item
    → Leads root base v
    → AllAddressed root (item_blocks of_item base (as_dict v))
item_blocks-AllAddressed root of_item base (obj fs) good leads = good base fs leads
item_blocks-AllAddressed root of_item base null good leads = tt
item_blocks-AllAddressed root of_item base (bool b) good leads = tt
item_blocks-AllAddressed root of_item base (num n) good leads = tt
item_blocks-AllAddressed root of_item base (str s) good leads = tt
item_blocks-AllAddressed root of_item base (arr vs) good leads = tt

enumerated-AllAddressed :
    (root : Value) (of_item : PathTo → Message → Option (List Block)) (name : String) (n : ℕ)
    (vs : List Value)
    → Good root of_item
    → ((j : ℕ) (v : Value)
        → nth vs j ≡ some v
        → Leads root (key "result" ∷ key name ∷ index (n + j) ∷ []) v)
    → AllAddressed root (enumerated of_item name n vs)
unfolding enumerated
enumerated-AllAddressed root of_item name n [] good leads = tt
enumerated-AllAddressed root of_item name n (v ∷ vs) good leads =
    both-AllAddressed root _ _
      (item_blocks-AllAddressed root of_item (key "result" ∷ key name ∷ index n ∷ []) v good (
        subst (λ i. Leads root (key "result" ∷ key name ∷ index i ∷ []) v) (omega arith)
          (leads 0 v refl)))
      (enumerated-AllAddressed root of_item name (suc n) vs good (λ j w e.
        subst (λ i. Leads root (key "result" ∷ key name ∷ index i ∷ []) w) (omega arith)
          (leads (suc j) w e)))

list_blocks-AllAddressed :
    (root : Value) (of_item : PathTo → Message → Option (List Block)) (name : String) (rs : Fields)
    → Good root of_item
    → Leads root (key "result" ∷ []) (obj rs)
    → AllAddressed root (list_blocks of_item name (items_or_none (get_value (entries rs) name)))
unfolding items_or_none enumerated
list_blocks-AllAddressed root of_item name rs good leads = go (get_value (entries rs) name) refl
  where
    scalar : (b : Bool) → AllAddressed root (list_blocks of_item name (if b then some [] else none))
    scalar true = tt
    scalar false = tt

    go :
        (v : Value)
        → get_value (entries rs) name ≡ v
        → AllAddressed root (list_blocks of_item name (items_or_none v))
    go null e = tt
    go (bool b) e = scalar (not b)
    go (num n) e = scalar (n == pos 0)
    go (str s) e = scalar (s == "")
    go (obj end) e = tt
    go (obj (field k v fs)) e = tt
    go (arr nil) e = tt
    go (arr (cons v vs)) e =
        enumerated-AllAddressed root of_item name 0 (items (cons v vs)) good (λ j w h.
          subst (λ i. Leads root (key "result" ∷ key name ∷ index i ∷ []) w) (omega arith)
            (Leads-child root (arr (cons v vs)) w (key "result" ∷ key name ∷ []) (index j)
              (Leads-child root (obj rs) (arr (cons v vs)) (key "result" ∷ []) (key name) leads
                (get-get_value (entries rs) name (arr (cons v vs)) e (λ h. absurd (ground arith))))
              h))

-- Every descriptor that carries a text has the path at which the message holds that text.
blocks-AllAddressed :
    (codec : Codec) (message : Message) → AllAddressed (dict message) (blocks codec message)
unfolding blocks result_blocks contents_block Leads
blocks-AllAddressed codec message = go (get_value message "result") refl
  where
    go :
        (r : Value)
        → get_value message "result" ≡ r
        → AllAddressed (dict message) (blocks_of codec (as_dict r))
    go null e = tt
    go (bool b) e = tt
    go (num n) e = tt
    go (str s) e = tt
    go (arr vs) e = tt
    go (obj rs) e =
        let leads =
          Leads-child (dict message) (dict message) (obj rs) [] (key "result") (λ p. refl)
            (rw entries-of_entries
              (get-get_value message "result" (obj rs) e (λ h. absurd (ground arith)))) in
        both-AllAddressed (dict message) _ _
          (list_blocks-AllAddressed (dict message) (content_block codec) "content" rs
            (content_block-AllAddressed codec (dict message)) leads)
          (list_blocks-AllAddressed (dict message) (contents_block codec) "contents" rs
            (λ base fs. resource_block-AllAddressed codec (dict message) base fs) leads)

write_at-dict :
    (fs : Fields) (s : Segment) (path : PathTo) (v w : Value)
    → write_at (obj fs) (s ∷ path) v ≡ some w
    → dict (dict_or_empty w) ≡ w
unfolding write_at
write_at-dict fs s path v w h =
    go s
      (elim (child (obj fs) s) as (λ _. Option Value) [ none ↦ none | some c ↦ write_at c path v ])
      h
  where
    go :
        (s : Segment) (o : Option Value)
        → put_back (obj fs) s o ≡ some w
        → dict (dict_or_empty w) ≡ w
    go s none h = absurd (ground arith)
    go (key k) (some c) h =
        subst (λ x. dict (dict_or_empty x) ≡ x) (some_injective _ w h)
          (ap dict (entries-of_entries (insert (entries fs) k c)))
    go (index n) (some c) h =
        subst (λ x. dict (dict_or_empty x) ≡ x) (some_injective _ w h)
          (ap obj (of_entries-entries fs))

set_value-Written :
    (message : Message) (path : PathTo) (v root : Value)
    → (text : String) → read_at (dict message) path ≡ some (str text)
    → Written (dict message) path v root
    → dict (set_value message path v) ≡ root
unfolding set_value read_at write_at
set_value-Written message [] v root text h done = absurd (ground arith)
set_value-Written message (s ∷ path) v root text h done =
    rw done.0 (write_at-dict (of_entries message) s path v root done.0)

All-middle : (P : Block → Type 0) (bs cs : List Block) (b : Block) → All P (bs ++ (b ∷ cs)) → P b
All-middle P [] cs b h = h.0
All-middle P (x ∷ bs) cs b h = All-middle P bs cs b h.1

-- For every block that carries a text, wherever it is among a message's blocks: a write at its path puts
-- the new text there, and leaves everything else in the message, as read along any path that parts from
-- the block's.
pub set_text-blocks :
    (codec : Codec) (message : Message) (bs cs : List Block) (b : Block) (old new : String)
    → blocks codec message ≡ some (bs ++ (b ∷ cs))
    → b.text ≡ str old
    → (read_at (dict (set_text message b.path new)) b.path ≡ some (str new))
      × ((q : PathTo)
          → apart b.path q ≡ true
          → read_at (dict (set_text message b.path new)) q ≡ read_at (dict message) q)
unfolding set_text
set_text-blocks codec message bs cs b old new h e =
    let there =
      All-middle (Addressed (dict message)) bs cs b
        (subst (AllAddressed (dict message)) h (blocks-AllAddressed codec message)) old e in
    let (root, done) = write_at-Written (dict message) b.path (str new) (str old) there in
    let same = set_value-Written message b.path (str new) root old there done in
    rw same (done.1, done.2)
