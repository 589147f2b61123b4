-- ===== src/Aggregate/Items.antt =====
-- What the gathering of items keeps of where they are from.
use python_yamp.Prelude.{
  not, ◌⊎◌, inl, inr, sym, ◌∙◌, ap, eq_iff, Bool-cases, ◌&&◌, ◌==◌, String, ◌≡◌, refl, subst, Bool,
  true, false, Option, none, some, List, [], ◌∷◌, ◌++◌, arith, if◌then◌else◌, some_injective, All,
  All-append, beq_refl, elem, char_eq, nat_eq, string_eq, option_eq, pair_eq, ℤ, int_eq,
}
use python_yamp.Prelude.Dict.{Dict, get, insert, get-insert}
use python_yamp.Json.{
  Value, null, bool, num, str, arr, obj, end, field, items, Message, get_value, dict_or_empty,
  as_str,
}
use python_yamp.Collision.{Tool}
use python_yamp.Requests.{Sent}
use python_yamp.Aggregate.{CapabilityKind, Host, Query, label}
use python_yamp.Routing.{name_matches}
use python_yamp.Aggregate.Collect.{
  Results, Gathered, labelled, renamed, add_item, add_items, items_of, add_listed, add_result,
  add_results, result_of, with_result, take_response, take_responses, Page, page_of, cache_after,
  gather,
}

abbrev pub Among : Value → List Value → Type 0
Among v [] = ⊥
Among v (w ∷ ws) = (v ≡ w) ⊎ Among v ws

-- an item of what stands under a result's collection
abbrev pub Listed : Value → Option Value → Type 0
Listed v (some (arr vs)) = Among v (items vs)
Listed v _ = ⊥

-- A tool that is an item of a backend's result, as it came but under the client's name for it, which the
-- patterns match: its own name, with the backend's id unless there is one backend or names pass through.
abbrev pub FromBackend :
    CapabilityKind → Host → List String → List String → (String → Message → Type 0) → Tool → Type 0
FromBackend cap h patterns ids Source t =
    (id : String) × (original : String) × (r : Message) × (v : Value) × (elem id ids ≡ true)
    × Source id r
    × Listed v (get r cap.collection)
    × (get_value (dict_or_empty v) cap.field_name ≡ str original)
    × (t.name ≡ (
        if (cap.collection == "tools" && h.strategy == "passthrough") && not h.single
        then original
        else label cap h.single id original))
    × (t.tool ≡ insert (dict_or_empty v) cap.field_name (str t.name))
    × (name_matches t.name patterns ≡ true)

as_str-eq-some : (v : Value) (s : String) → as_str v ≡ some s → v ≡ str s
as_str-eq-some (str t) s h = ap str (some_injective t s h)
as_str-eq-some null s h = absurd (ground arith)
as_str-eq-some _ s h = absurd (ground arith)

module _ (cap : CapabilityKind) (h : Host) (patterns ids : List String)
    (Source : String → Message → Type 0) where
  abbrev pub Good : Tool → Type 0
  Good = FromBackend cap h patterns ids Source

  abbrev AllFrom : Option Gathered → Type 0
  AllFrom none = Unit
  AllFrom (some g) = All Good g.tools

  add_item-AllFrom :
      (id : String) (r : Message) (v : Value) (name : Option String) (g : Gathered)
      → elem id ids ≡ true
      → Source id r
      → Listed v (get r cap.collection)
      → as_str (get_value (dict_or_empty v) cap.field_name) ≡ name
      → All Good g.tools
      → AllFrom (add_item cap h patterns id (dict_or_empty v) name g)
  unfolding labelled
  add_item-AllFrom id r v none g there source listed e all_ = tt
  add_item-AllFrom id r v (some name) g there source listed e all_ =
      go (name_matches (labelled cap h id name) patterns) refl
    where
      go :
          (b : Bool)
          → name_matches (labelled cap h id name) patterns ≡ b
          → All Good (
              if b
              then g.tools ++ (renamed cap (dict_or_empty v) (labelled cap h id name) ∷ [])
              else g.tools)
      go true m = All-append Good g.tools _ all_ (
        (
          id,
          name,
          r,
          v,
          there,
          source,
          listed,
          as_str-eq-some (get_value (dict_or_empty v) cap.field_name) name e,
          refl,
          refl,
          m,
        ),
        tt,
      )
      go false m = all_

  add_items-AllFrom :
      (id : String) (r : Message) (vs : List Value) (g : Gathered)
      → elem id ids ≡ true
      → Source id r
      → ((v : Value) → Among v vs → Listed v (get r cap.collection))
      → All Good g.tools
      → AllFrom (add_items cap h patterns id vs g)
  unfolding add_items
  add_items-AllFrom id r [] g there source listed all_ = all_
  add_items-AllFrom id r (v ∷ vs) g there source listed all_ =
      go
        (add_item cap h patterns id (dict_or_empty v)
          (as_str (get_value (dict_or_empty v) cap.field_name)) g)
        (add_item-AllFrom id r v (as_str (get_value (dict_or_empty v) cap.field_name)) g there
          source (listed v (inl refl)) refl all_)
        (λ g'. add_items-AllFrom id r vs g' there source (λ w a. listed w (inr a)))
    where
      go :
          (o : Option Gathered)
          → AllFrom o
          → ((g' : Gathered) → All Good g'.tools → AllFrom (add_items cap h patterns id vs g'))
          → AllFrom (elim o as (λ _. Option Gathered) [
            | none ↦ none
            | some g' ↦ add_items cap h patterns id vs g'
          ])
      go none all_ later = tt
      go (some g') all_ later = later g' all_

  items_of-Listed :
      (o : Option Value) (vs : List Value)
      → items_of o ≡ some vs
      → (v : Value) → Among v vs
      → Listed v o
  items_of-Listed none vs e v a = absurd (subst (Among v) (sym (some_injective [] vs e)) a)
  items_of-Listed (some (arr xs)) vs e v a =
      subst (Among v) (sym (some_injective (items xs) vs e)) a
  items_of-Listed (some (obj end)) vs e v a =
      absurd (subst (Among v) (sym (some_injective [] vs e)) a)
  items_of-Listed (some (obj (field k w fs))) vs e v a = absurd (ground arith)
  items_of-Listed (some (str s)) vs e v a = absurd (go (s == "") e)
    where
      no_items : List Value
      no_items = []

      go : (b : Bool) → (if b then some no_items else none) ≡ some vs → ⊥
      go true e = subst (Among v) (sym (some_injective no_items vs e)) a
      go false e = ground arith
  items_of-Listed (some null) vs e v a = absurd (ground arith)
  items_of-Listed (some (bool b)) vs e v a = absurd (ground arith)
  items_of-Listed (some (num n)) vs e v a = absurd (ground arith)

  add_result-AllFrom :
      (id : String) (o : Option Message) (g : Gathered)
      → elem id ids ≡ true
      → ((r : Message) → o ≡ some r → Source id r)
      → All Good g.tools
      → AllFrom (add_result cap h patterns id o g)
  add_result-AllFrom id none g there source all_ = all_
  add_result-AllFrom id (some r) g there source all_ = go (items_of (get r cap.collection)) refl
    where
      go :
          (vs : Option (List Value))
          → items_of (get r cap.collection) ≡ vs
          → AllFrom (add_listed cap h patterns id vs g)
      go none e = tt
      go (some vs) e =
          add_items-AllFrom id r vs g there (source r refl)
            (items_of-Listed (get r cap.collection) vs e) all_

  -- every result that is held is one of its backend
  abbrev pub Sourced : Dict String Message → Type 0
  Sourced results = (id : String) (r : Message) → get results id ≡ some r → Source id r

  add_results-AllFrom :
      (todo : List String) (results : Dict String Message) (g : Gathered)
      → All (λ id. elem id ids ≡ true) todo
      → Sourced results
      → All Good g.tools
      → AllFrom (add_results cap h patterns results todo g)
  unfolding add_results
  add_results-AllFrom [] results g there source all_ = all_
  add_results-AllFrom (id ∷ todo) results g there source all_ =
      go (add_result cap h patterns id (get results id) g)
        (add_result-AllFrom id (get results id) g there.0 (source id) all_)
        (λ g'. add_results-AllFrom todo results g' there.1 source)
    where
      go :
          (o : Option Gathered)
          → AllFrom o
          → ((g' : Gathered)
              → All Good g'.tools
              → AllFrom (add_results cap h patterns results todo g'))
          → AllFrom (elim o as (λ _. Option Gathered) [
            | none ↦ none
            | some g' ↦ add_results cap h patterns results todo g'
          ])
      go none all_ later = tt
      go (some g') all_ later = later g' all_

  -- one more result, of a backend that gave it
  pub insert-Sourced :
      (results : Dict String Message) (id : String) (r : Message)
      → Source id r
      → Sourced results
      → Sourced (insert results id r)
  insert-Sourced results id r source held j m e =
      go (Bool-cases (id == j)) (sym (get-insert results id j r) ∙ e)
    where
      go :
          ((id == j) ≡ true) ⊎ ((id == j) ≡ false)
          → (if id == j then some r else get results j) ≡ some m
          → Source j m
      go (inl same) e =
          subst (λ x. Source x m) ((eq_iff id j).0 same)
            (subst (Source id)
              (some_injective r m (ap (λ b. if b then some r else get results j) (sym same) ∙ e))
              source)
      go (inr other) e = held j m (ap (λ b. if b then some r else get results j) (sym other) ∙ e)

  -- what the results are after the responses, or that it raised
  abbrev pub SourcedIn : Option Results → Type 0
  SourcedIn none = Unit
  SourcedIn (some s) = Sourced s.results

  pub take_responses-Sourced :
      (now : ℤ) (answers : String → Option Message) (method : String) (todo : List String)
      (s : Results)
      → ((id : String) (response r : Message)
          → answers id ≡ some response
          → result_of response ≡ some r
          → Source id r)
      → Sourced s.results
      → SourcedIn (take_responses now answers h method todo s)
  unfolding take_responses take_response
  take_responses-Sourced now answers method [] s source held = held
  take_responses-Sourced now answers method (id ∷ todo) s source held =
      go (take_response now h method id (answers id) s) (one (answers id) refl)
        (λ s'. take_responses-Sourced now answers method todo s' source)
    where
      given :
          (response : Message)
          → answers id ≡ some response
          → (o : Option Message) → result_of response ≡ o
          → SourcedIn (with_result now h method id s o)
      given response e none f = tt
      given response e (some r) f = insert-Sourced s.results id r (source id response r e f) held

      down :
          (b : Bool)
          → SourcedIn
              (if b then some (record s { unavailable = s.unavailable ++ (id ∷ []) }) else none)
      down true = held
      down false = tt

      one : (o : Option Message) → answers id ≡ o → SourcedIn (take_response now h method id o s)
      one none e = down h.resilient
      one (some response) e = given response e (result_of response) refl

      go :
          (o : Option Results)
          → SourcedIn o
          → ((s' : Results)
              → Sourced s'.results
              → SourcedIn (take_responses now answers h method todo s'))
          → SourcedIn (elim o as (λ _. Option Results) [
            | none ↦ none
            | some s' ↦ take_responses now answers h method todo s'
          ])
      go none all_ later = tt
      go (some s') all_ later = later s' all_

  pub gather-AllFrom :
      (q : Query) (sent : List Sent) (s : Option Results) (page : Page)
      → q.patterns ≡ patterns
      → All (λ id. elem id ids ≡ true) ids
      → SourcedIn s
      → gather cap h q ids sent s ≡ some page
      → All Good page.tools
  gather-AllFrom q sent none page p there held e = absurd (ground arith)
  gather-AllFrom q sent (some s) page p there held e =
      go (add_results cap h q.patterns s.results ids (record { tools = []; reverse = h.reverse }))
        (subst
          (λ x.
            AllFrom
              (add_results cap h x s.results ids (record { tools = []; reverse = h.reverse })))
          (sym p) (add_results-AllFrom ids s.results _ there held tt))
        e
    where
      go :
          (g : Option Gathered)
          → AllFrom g
          → page_of h (cache_after s.cache h.cache) s ids sent g ≡ some page
          → All Good page.tools
      go none all_ e = absurd (ground arith)
      go (some g) all_ e = subst (λ x. All Good x.tools) (some_injective _ page e) all_

abbrev pub AllIn : List String → List String → Type 0
AllIn ids = All (λ id. elem id ids ≡ true)

AllIn-cons : (x : String) (ids todo : List String) → AllIn ids todo → AllIn (x ∷ ids) todo
AllIn-cons x ids [] there = tt
AllIn-cons x ids (id ∷ todo) there = (rw there.0 (ground arith), AllIn-cons x ids todo there.1)

pub AllIn-self : (ids : List String) → AllIn ids ids
AllIn-self [] = tt
AllIn-self (id ∷ ids) = (rw (beq_refl id) refl, AllIn-cons id ids ids (AllIn-self ids))
