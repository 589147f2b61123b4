-- ===== src/Content/Single.antt =====
-- The descriptors of one content block stand at their texts.
use python_yamp.Prelude.{
  String, ◌≡◌, refl, sym, ap, ◌∙◌, ◌≢◌, inl, inr, Bool, true, false, not, ◌||◌, Option, none, some,
  List, [], ◌∷◌, ◌++◌, arith, if◌then◌else◌, Bool-cases, All, All-append, ◌==◌, char_eq, nat_eq,
  string_eq, option_eq, pair_eq, pos, int_eq,
}
use python_yamp.Prelude.Dict.{get}
use python_yamp.Json.{
  Value, null, bool, num, str, arr, obj, nil, cons, Fields, end, field, Message, entries, get_value,
}
use python_yamp.Callout.{Codec, decode_hex}
use python_yamp.Content.{
  Segment, key, PathTo, Block, dict_or_none, resource_block, resource_blocks, own_block, type_of,
  content_block, both, child,
}
use python_yamp.Content.Paths.{read_at, read_at-child}

-- a descriptor that carries a text has the path that the text stands at
abbrev pub Addressed : Value → Block → Type 0
Addressed root b = (text : String) → b.text ≡ str text → read_at root b.path ≡ some (str text)

unfoldable pub Leads : Value → PathTo → Value → Type 0
Leads root base v = (p : PathTo) → read_at root (base ++ p) ≡ read_at v p

abbrev pub AllAddressed : Value → Option (List Block) → Type 0
AllAddressed root none = Unit
AllAddressed root (some bs) = All (Addressed root) bs

pub both-AllAddressed :
    (root : Value) (a b : Option (List Block))
    → AllAddressed root a
    → AllAddressed root b
    → AllAddressed root (both a b)
both-AllAddressed root none b h k = tt
both-AllAddressed root (some bs) none h k = tt
both-AllAddressed root (some bs) (some cs) h k = All-append (Addressed root) bs cs h k

pub get-get_value :
    (m : Message) (k : String) (v : Value) → get_value m k ≡ v → v ≢ null → get m k ≡ some v
get-get_value m k v h other = go (get m k) h
  where
    go : (o : Option Value) → (elim o as (λ _. Value) [ none ↦ null | some w ↦ w ]) ≡ v → o ≡ some v
    go none e = absurd (other (sym e))
    go (some w) e = ap some e

-- the text of a member
read_at-key :
    (fs : Fields) (k text : String)
    → get (entries fs) k ≡ some (str text)
    → read_at (obj fs) (key k ∷ []) ≡ some (str text)
unfolding read_at
read_at-key fs k text e = read_at-child (obj fs) (str text) (key k) [] e

pub resource_block-AllAddressed :
    (codec : Codec) (root : Value) (base : PathTo) (fs : Fields)
    → Leads root base (obj fs)
    → All (Addressed root) (resource_block codec base (entries fs))
unfolding resource_block Leads read_at
resource_block-AllAddressed codec root base fs leads =
    go (get (entries fs) "text") (get (entries fs) "blob") refl
  where
    go :
        (t b : Option Value)
        → get (entries fs) "text" ≡ t
        → All (Addressed root) (elim t as (λ _. List Block) [
          | some text ↦
              (record {
                kind = "resource";
                path = base ++ (key "text" ∷ []);
                mime = get_value (entries fs) "mimeType";
                uri = get_value (entries fs) "uri";
                text = text;
                bytes = null;
              }
                ∷ [])
          | none ↦ elim b as (λ _. List Block) [
            | some blob ↦
                (record {
                  kind = "resource";
                  path = base ++ (key "blob" ∷ []);
                  mime = get_value (entries fs) "mimeType";
                  uri = get_value (entries fs) "uri";
                  text = null;
                  bytes = decode_hex codec blob;
                }
                  ∷ [])
            | none ↦ []
          ]
        ])
    go none none e = tt
    go none (some b) e = (λ text h. absurd (ground arith), tt)
    go (some t) b e =
        (λ text h. leads (key "text" ∷ []) ∙ read_at-key fs "text" text (e ∙ ap some h), tt)

null-str : (text : String) → ¬ (null ≡ str text)
null-str text h = ground arith

own_block-Addressed :
    (codec : Codec) (root : Value) (base : PathTo) (fs : Fields) (kind : String)
    → Leads root base (obj fs)
    → Addressed root (own_block codec base (entries fs) kind)
unfolding own_block Leads read_at
own_block-Addressed codec root base fs kind leads = elim (Bool-cases (kind == "text")) [
  | inl is_text ↦ rw is_text (λ text h.
      leads (key "text" ∷ [])
      ∙ read_at-key fs "text" text
          (get-get_value (entries fs) "text" (str text) h (λ e. null-str text (sym e))))
  | inr other ↦ rw other (elim (Bool-cases (kind == "image" || kind == "audio")) [
    | inl binary ↦ rw binary (λ text h. absurd (null-str text h))
    | inr no_data ↦ rw no_data (elim (Bool-cases (kind == "resource_link")) [
      | inl is_link ↦ rw is_link (λ text h. absurd (null-str text h))
      | inr unknown ↦ rw unknown (λ text h. absurd (null-str text h))
    ])
  ])
]

pub Leads-child :
    (root v w : Value) (base : PathTo) (s : Segment)
    → Leads root base v
    → child v s ≡ some w
    → Leads root (base ++ (s ∷ [])) w
unfolding Leads
Leads-child root v w base s leads e p =
    ap (read_at root) (append_one base s p) ∙ leads (s ∷ p) ∙ read_at-child v w s p e
  where
    append_one : (a : PathTo) (s : Segment) (b : PathTo) → (a ++ (s ∷ [])) ++ b ≡ a ++ (s ∷ b)
    append_one [] s b = refl
    append_one (x ∷ a) s b = ap (◌∷◌ x) (append_one a s b)

pub content_block-AllAddressed :
    (codec : Codec) (root : Value) (base : PathTo) (fs : Fields)
    → Leads root base (obj fs)
    → AllAddressed root (content_block codec base (entries fs))
unfolding content_block dict_or_none resource_block get
content_block-AllAddressed codec root base fs leads =
    elim (Bool-cases (type_of (entries fs) == "resource")) [
      | inl held ↦ rw held (go (get_value (entries fs) "resource") refl)
      | inr own ↦ rw own (own_block-Addressed codec root base fs (type_of (entries fs)) leads, tt)
    ]
  where
    inside :
        (rs : Fields)
        → get_value (entries fs) "resource" ≡ obj rs
        → All (Addressed root) (resource_block codec (base ++ (key "resource" ∷ [])) (entries rs))
    inside rs e = resource_block-AllAddressed codec root (base ++ (key "resource" ∷ [])) rs (
        Leads-child root (obj fs) (obj rs) base (key "resource") leads
          (get-get_value (entries fs) "resource" (obj rs) e (λ h. absurd (ground arith))))

    scalar :
        (b : Bool)
        → AllAddressed root
            (resource_blocks codec (base ++ (key "resource" ∷ [])) (if b then some [] else none))
    scalar true = tt
    scalar false = tt

    go :
        (r : Value)
        → get_value (entries fs) "resource" ≡ r
        → AllAddressed root (resource_blocks codec (base ++ (key "resource" ∷ [])) (dict_or_none r))
    go null e = tt
    go (bool b) e = scalar (not b)
    go (num n) e = scalar (n == pos 0)
    go (str s) e = scalar (s == "")
    go (arr nil) e = tt
    go (arr (cons v vs)) e = tt
    go (obj end) e = tt
    go (obj (field k v rs)) e = inside (field k v rs) e
