-- ===== src/Resilience/Managed/Surface.antt =====
-- What a list holds where some backends are out.
use python_yamp.Prelude.{
  String, ◌≡◌, refl, sym, ap, ◌∙◌, Bool, true, false, Option, none, some, List, [], ◌∷◌, ◌++◌, map,
  arith, if◌then◌else◌, is_some, some_injective, nat_eq, string_eq, option_eq, pair_eq, int_eq,
}
use python_yamp.Prelude.Dict.{get, insert}
use python_yamp.Json.{
  Value, null, str, arr, obj, Message, entries, items, dict, list, get_value, dict_or_empty,
}
use python_yamp.Jsonrpc.{result}
use python_yamp.Namespace.{prefix}
use python_yamp.Resilience.Breaker.{CircuitBreaker, allow, record_success, record_failure}
use python_yamp.Resilience.Managed.{
  ManagedBackend, Times, attempt, text_of, named, label, labels, list_at, tools_in, labelled,
  listed, gathered, visited, gather, list_body, tools_list, partial_meta,
}

-- the name of a tool in the backend's own list
abbrev pub name_in : (Value → String) → Option Value → String
name_in shown none = ""
name_in shown (some name) = text_of shown name

-- a tool as the client sees it: as it came, with the backend's id in front of its name
abbrev pub renamed : (Value → String) → String → Value → Value
renamed shown id v = dict (
    insert (dict_or_empty v) "name"
      (str (prefix id (name_in shown (get (dict_or_empty v) "name")))))

abbrev pub items_or_none : Option Value → List Value
items_or_none (some (arr vs)) = items vs
items_or_none _ = []

-- the tools of a backend's response
abbrev pub tools_of : Message → List Value
tools_of response = items_or_none (get (dict_or_empty (get_value response "result")) "tools")

label_lem :
    (shown : Value → String) (id : String) (v w : Value)
    → label shown id v ≡ some w
    → renamed shown id v ≡ w
label_lem shown id (obj fs) w h = go (get (entries fs) "name") h
  where
    go :
        (o : Option Value)
        → named shown id (entries fs) o ≡ some w
        → dict (insert (entries fs) "name" (str (prefix id (name_in shown o)))) ≡ w
    go none h = absurd (ground arith)
    go (some name) h = some_injective _ w h
label_lem shown id null w h = absurd (ground arith)
label_lem shown id _ w h = absurd (ground arith)

labels_lem :
    (shown : Value → String) (id : String) (vs ws : List Value)
    → labels shown id vs ≡ some ws
    → map (renamed shown id) vs ≡ ws
unfolding labels
labels_lem shown id [] ws h = some_injective [] ws h
labels_lem shown id (v ∷ vs) ws h =
    go (label shown id v) (labels shown id vs) refl refl h (labels_lem shown id vs)
  where
    go :
        (e : Option Value) (es : Option (List Value))
        → label shown id v ≡ e
        → labels shown id vs ≡ es
        → elim e as (λ _. Option (List Value)) [
          | none ↦ none
          | some x ↦ elim es as (λ _. Option (List Value)) [ none ↦ none | some xs ↦ some (x ∷ xs) ]
        ]
          ≡ some ws
        → ((xs : List Value) → labels shown id vs ≡ some xs → map (renamed shown id) vs ≡ xs)
        → map (renamed shown id) (v ∷ vs) ≡ ws
    go none es a b h rec = absurd (ground arith)
    go (some x) none a b h rec = absurd (ground arith)
    go (some x) (some xs) a b h rec =
        ap (λ y. y ∷ map (renamed shown id) vs) (label_lem shown id v x a)
        ∙ ap (◌∷◌ x) (rec xs b)
        ∙ some_injective (x ∷ xs) ws h

tools_in_lem :
    (o : Option Value) (vs : List Value)
    → tools_in o ≡ some vs
    → items_or_none
        (get (dict_or_empty (elim o as (λ _. Value) [ none ↦ null | some v ↦ v ])) "tools")
      ≡ vs
unfolding get
tools_in_lem none vs h = some_injective [] vs h
tools_in_lem (some (obj fs)) vs h = go (get (entries fs) "tools") h
  where
    go : (o : Option Value) → list_at o ≡ some vs → items_or_none o ≡ vs
    go none h = some_injective [] vs h
    go (some (arr xs)) h = some_injective (items xs) vs h
    go (some _) h = absurd (ground arith)
tools_in_lem (some _) vs h = absurd (ground arith)

-- the tools that a backend adds, given its response, and whether it is unavailable
abbrev pub shares : (Value → String) → String → Option Message → List Value
shares shown id none = []
shares shown id (some response) = map (renamed shown id) (tools_of response)

abbrev pub missing : String → Option Message → List String
missing id none = id ∷ []
missing id (some response) = []

gathered_lem :
    (shown : Value → String) (id : String) (m : Option Message) (r : List Value × List String)
    → gathered shown id m ≡ some r
    → (shares shown id m, missing id m) ≡ r
gathered_lem shown id none r h = some_injective _ r h
gathered_lem shown id (some response) r h =
    go (tools_in (get response "result")) (tools_in_lem (get response "result")) h
  where
    relabel :
        (vs : List Value) (o : Option (List Value))
        → labels shown id vs ≡ o
        → tools_of response ≡ vs
        → listed o ≡ some r
        → (map (renamed shown id) (tools_of response), []) ≡ r
    relabel vs none e t h = absurd (ground arith)
    relabel vs (some ws) e t h =
        ap (λ x. (map (renamed shown id) x, [])) t
        ∙ ap (λ x. (x, [])) (labels_lem shown id vs ws e)
        ∙ some_injective (ws, []) r h

    go :
        (o : Option (List Value))
        → ((vs : List Value) → o ≡ some vs → tools_of response ≡ vs)
        → listed (labelled shown id o) ≡ some r
        → (map (renamed shown id) (tools_of response), []) ≡ r
    go none t h = absurd (ground arith)
    go (some vs) t h = relabel vs (labels shown id vs) refl (t vs refl) h

module _ (times : String → Times) (ask : String → String → Message → Option Message)
    (shown : Value → String) where
  -- the breaker as it is asked, and whether it lets the request through
  abbrev pub asked : ManagedBackend → CircuitBreaker × Bool
  asked b = allow (times b.id).asked b.breaker

  -- a backend whose breaker refuses is not asked
  abbrev pub response_of : ManagedBackend → Option Message
  response_of b = if (asked b).1 then ask b.id "tools/list" [] else none

  -- the breaker is told of a success or a failure where the request was let through
  abbrev pub breaker_after : ManagedBackend → CircuitBreaker
  breaker_after b =
      if (asked b).1
      then if is_some (ask b.id "tools/list" [])
        then record_success (asked b).0
        else record_failure (times b.id).told (asked b).0
      else (asked b).0

  abbrev pub backend_after : ManagedBackend → ManagedBackend
  backend_after b = record { id = b.id; breaker = breaker_after b }

  visited_lem : (b : ManagedBackend) → visited times ask b ≡ (backend_after b, response_of b)
  visited_lem b = go (asked b) (ask b.id "tools/list" [])
    where
      go :
          (a : CircuitBreaker × Bool) (answer : Option Message)
          → attempt (times b.id) answer (record { id = b.id; breaker = a.0 }) a.1 ≡ (
            record {
              id = b.id;
              breaker =
                  if a.1
                  then if is_some answer
                    then record_success a.0
                    else record_failure (times b.id).told a.0
                  else a.0;
            },
            if a.1 then answer else none,
          )
      go (c, false) answer = refl
      go (c, true) none = refl
      go (c, true) (some m) = refl

  abbrev pub all_tools : List ManagedBackend → List Value
  all_tools [] = []
  all_tools (b ∷ bs) = shares shown b.id (response_of b) ++ all_tools bs

  abbrev pub all_missing : List ManagedBackend → List String
  all_missing [] = []
  all_missing (b ∷ bs) = missing b.id (response_of b) ++ all_missing bs

  gather_lem :
      (bs : List ManagedBackend) (r : List ManagedBackend × (List Value × List String))
      → gather times ask shown bs ≡ some r
      → (map backend_after bs, (all_tools bs, all_missing bs)) ≡ r
  unfolding gather
  gather_lem [] r h = some_injective _ r h
  gather_lem (b ∷ bs) r h =
      go (gathered shown b.id (visited times ask b).1) (gather times ask shown bs) refl h
        (gather_lem bs)
    where
      go :
          (o : Option (List Value × List String))
          (p : Option (List ManagedBackend × (List Value × List String)))
          → gathered shown b.id (visited times ask b).1 ≡ o
          → elim o as (λ _. Option (List ManagedBackend × (List Value × List String))) [
            | none ↦ none
            | some (vs, out) ↦
                elim p as (λ _. Option (List ManagedBackend × (List Value × List String))) [
                  | none ↦ none
                  | some (later, (ws, outs)) ↦
                      some ((visited times ask b).0 ∷ later, (vs ++ ws, out ++ outs))
                ]
          ]
            ≡ some r
          → ((q : List ManagedBackend × (List Value × List String))
              → p ≡ some q
              → (map backend_after bs, (all_tools bs, all_missing bs)) ≡ q)
          → (map backend_after (b ∷ bs), (all_tools (b ∷ bs), all_missing (b ∷ bs))) ≡ r
      go none p e h rec = absurd (ground arith)
      go (some one) none e h rec = absurd (ground arith)
      go (some (vs, out)) (some rest) e h rec =
          let added =
            gathered_lem shown b.id (response_of b) (vs, out)
              (sym (ap (λ v. gathered shown b.id v.1) (visited_lem b)) ∙ e) in
          ap
            (λ x. (
              backend_after b ∷ map backend_after bs,
              (x.0 ++ all_tools bs, x.1 ++ all_missing bs),
            ))
            added
          ∙ ap (λ x. (backend_after b ∷ x.0, (vs ++ x.1.0, out ++ x.1.1))) (rec rest refl)
          ∙ ap (λ v. (v.0 ∷ rest.0, (vs ++ rest.1.0, out ++ rest.1.1))) (sym (visited_lem b))
          ∙ some_injective _ r h

  -- the `_meta` of a list: which backends are unavailable, where any is
  abbrev pub partial_entry : List String → Message
  partial_entry [] = []
  partial_entry (u ∷ us) = ("_meta", dict (partial_meta (u ∷ us) "circuit_breaker_open")) ∷ []

  -- Where no backend's answer is malformed, the list that the client gets has all the tools of the backends
  -- that were let through and answered, in their order, each as it came but under its backend's id, and
  -- in its `_meta` the backends that refused or failed, if there are any; a backend whose breaker refuses
  -- is not asked, and each other breaker is told once whether its backend answered.
  pub tools_list_lem :
      (id : Value) (bs after : List ManagedBackend) (m : Message)
      → tools_list times ask shown id bs ≡ some (after, m)
      → (m ≡ result id (dict (("tools", list (all_tools bs)) ∷ partial_entry (all_missing bs))))
        × (after ≡ map backend_after bs)
  unfolding tools_list
  tools_list_lem id bs after m h = go (gather times ask shown bs) refl h
    where
      body_eq :
          (tools : List Value) (out : List String)
          → list_body times ask tools out ≡ ("tools", list tools) ∷ partial_entry out
      body_eq tools [] = refl
      body_eq tools (u ∷ us) = refl

      go :
          (o : Option (List ManagedBackend × (List Value × List String)))
          → gather times ask shown bs ≡ o
          → elim o as (λ _. Option (List ManagedBackend × Message)) [
            | none ↦ none
            | some (bs', (tools, unavailable)) ↦
                some (bs', result id (dict (list_body times ask tools unavailable)))
          ]
            ≡ some (after, m)
          → (m ≡ result id (dict (("tools", list (all_tools bs)) ∷ partial_entry (all_missing bs))))
            × (after ≡ map backend_after bs)
      go none e h = absurd (ground arith)
      go (some (bs', (tools, out))) e h =
          let q =
            some_injective (bs', result id (dict (list_body times ask tools out))) (after, m) h in
          let g = gather_lem bs (bs', (tools, out)) e in
          (
            sym (ap (λ x. x.1) q)
                ∙ ap (λ l. result id (dict l)) (body_eq tools out)
                ∙ ap (λ x. result id (dict (("tools", list x.1.0) ∷ partial_entry x.1.1))) (sym g),
            sym (ap (λ x. x.0) q) ∙ sym (ap (λ x. x.0) g),
          )
