-- ===== src/Resilience/Managed/Calls.antt =====
-- A call reaches one backend at most, and leaves the others' breakers alone.
use python_yamp.Prelude.{
  String, ◌≡◌, refl, sym, ap, ◌∙◌, subst, Bool, true, false, not, Option, none, some, List, [], ◌∷◌,
  arith, eq_iff, if◌then◌else◌, some_injective, keep, All, ◌==◌, nat_eq, string_eq, option_eq,
  pair_eq, int_eq,
}
use python_yamp.Prelude.Dict.{get, insert}
use python_yamp.Json.{Value, str, Message}
use python_yamp.Jsonrpc.{result, error}
use python_yamp.Namespace.{split}
use python_yamp.Resilience.Breaker.{allow}
use python_yamp.Resilience.Managed.{
  ManagedBackend, Times, with_breaker, attempt, visit, first_visited, error_part, call_answer,
  unknown_tool, call_resolved, tools_call,
}

abbrev pub others : String → List ManagedBackend → List ManagedBackend
others target = keep (λ b. not (b.id == target))

abbrev Visited : Type 0
Visited = List ManagedBackend × (Bool × Option Message)

abbrev behind : ManagedBackend → Option Visited → Option Visited
behind b none = none
behind b (some (bs', r)) = some (b ∷ bs', r)

others_hit :
    (target : String) (b : ManagedBackend) (bs : List ManagedBackend)
    → (b.id == target) ≡ true
    → others target (b ∷ bs) ≡ others target bs
others_hit target b bs h = ground arith

others_miss :
    (target : String) (b : ManagedBackend) (bs : List ManagedBackend)
    → (b.id == target) ≡ false
    → others target (b ∷ bs) ≡ b ∷ others target bs
others_miss target b bs h = ground arith

module _ (times : String → Times) (ask : String → String → Message → Option Message) where
  visit_id : (t : Times) (m : Option Message) (b : ManagedBackend) → (visit t m b).0.id ≡ b.id
  visit_id t m b = go (allow t.asked b.breaker).1 m
    where
      go :
          (o : Bool) (m : Option Message)
          → (attempt t m (with_breaker b (allow t.asked b.breaker).0) o).0.id ≡ b.id
      go false m = refl
      go true none = refl
      go true (some r) = refl

  abbrev hit : String → Message → ManagedBackend → List ManagedBackend → Visited
  hit target params b bs =
      let v = visit (times b.id) (ask b.id "tools/call" params) b in
      (v.0 ∷ bs, ((allow (times b.id).asked b.breaker).1, v.1))

  first_visited-others :
      (target : String) (params : Message) (bs : List ManagedBackend) (r : Visited)
      → first_visited times ask target params bs ≡ some r
      → others target r.0 ≡ others target bs
  first_visited-others target params [] r h = absurd (ground arith)
  first_visited-others target params (b ∷ bs) r h =
      go (b.id == target) refl h (first_visited-others target params bs)
    where
      here :
          (x : ManagedBackend)
          → x.id ≡ b.id
          → (b.id == target) ≡ true
          → others target (x ∷ bs) ≡ others target (b ∷ bs)
      here x same s =
          others_hit target x bs (ap (λ i. i == target) same ∙ s) ∙ sym (others_hit target b bs s)

      later :
          (o : Option Visited)
          → ((q : Visited) → o ≡ some q → others target q.0 ≡ others target bs)
          → (b.id == target) ≡ false
          → behind b o ≡ some r
          → others target r.0 ≡ others target (b ∷ bs)
      later none rec s h = absurd (ground arith)
      later (some (bs', q)) rec s h =
          sym (ap (λ x. others target x.0) (some_injective (b ∷ bs', q) r h))
          ∙ (others_miss target b bs' s
              ∙ ap (λ xs. b ∷ xs) (rec (bs', q) refl)
              ∙ sym (others_miss target b bs s))

      go :
          (s : Bool)
          → (b.id == target) ≡ s
          → (if s
              then some (hit target params b bs)
              else behind b (first_visited times ask target params bs))
            ≡ some r
          → ((q : Visited)
              → first_visited times ask target params bs ≡ some q
              → others target q.0 ≡ others target bs)
          → others target r.0 ≡ others target (b ∷ bs)
      go true s h rec =
          sym (ap (λ x. others target x.0) (some_injective (hit target params b bs) r h))
          ∙ here _ (visit_id (times b.id) (ask b.id "tools/call" params) b) s
      go false s h rec = later (first_visited times ask target params bs) rec s h

  call_answer-id :
      (id : Value) (target : String) (r : Bool × Option Message)
      → get (call_answer times ask id target r) "id" ≡ some id
  unfolding error result get
  call_answer-id id target (false, m) = refl
  call_answer-id id target (true, none) = refl
  call_answer-id id target (true, some response) =
      elim (get response "result")
        as (λ o.
          get
            (elim o as (λ _. Message) [
              | some v ↦ result id v
              | none ↦
                  ("jsonrpc", str "2.0")
                  ∷ ("id", id)
                  ∷ ("error", error_part times ask (get response "error"))
                  ∷ []
            ])
            "id"
          ≡ some id) [ some v ↦ refl | none ↦ refl ]

  -- A call of a tool of the backend `target` leaves every other backend as it was, and its answer has
  -- the request's id.
  pub tools_call_lem :
      (id : Value) (params : Message) (name target original : String) (bs : List ManagedBackend)
      → split name ≡ some (target, original)
      → (others target (tools_call times ask id params name bs).0 ≡ others target bs)
        × (get (tools_call times ask id params name bs).1 "id" ≡ some id)
  unfolding tools_call
  tools_call_lem id params name target original bs h =
      subst
        (λ o.
          (others target (call_resolved times ask id params name bs o).0 ≡ others target bs)
          × (get (call_resolved times ask id params name bs o).1 "id" ≡ some id))
        (sym h) (go (first_visited times ask target (insert params "name" (str original)) bs) refl)
    where
      answer : Option Visited → List ManagedBackend × Message
      answer none = (bs, unknown_tool times ask id name)
      answer (some (bs', r)) = (bs', call_answer times ask id target r)

      go :
          (o : Option Visited)
          → first_visited times ask target (insert params "name" (str original)) bs ≡ o
          → (others target (answer o).0 ≡ others target bs) × (get (answer o).1 "id" ≡ some id)
      go none e = (refl, unfold error in unfold get in refl)
      go (some (bs', r)) e = (
        first_visited-others target (insert params "name" (str original)) bs (bs', r) e,
        call_answer-id id target r,
      )

module _ (times : String → Times) (ask other : String → String → Message → Option Message) where
  refused_visit :
      (t : Times) (m n : Option Message) (b : ManagedBackend)
      → (allow t.asked b.breaker).1 ≡ false
      → visit t m b ≡ visit t n b
  refused_visit t m n b h = rw h refl

  refused_first :
      (target : String) (params : Message) (bs : List ManagedBackend)
      → All (λ b. b.id ≡ target → (allow (times b.id).asked b.breaker).1 ≡ false) bs
      → first_visited times ask target params bs ≡ first_visited times other target params bs
  refused_first target params [] a = refl
  refused_first target params (b ∷ bs) (h, a) =
      go (b.id == target) refl (refused_first target params bs a)
    where
      go :
          (s : Bool)
          → (b.id == target) ≡ s
          → first_visited times ask target params bs ≡ first_visited times other target params bs
          → (if s
              then some (hit times ask target params b bs)
              else behind b (first_visited times ask target params bs))
            ≡ (if s
                then some (hit times other target params b bs)
                else behind b (first_visited times other target params bs))
      go true s rec =
          ap (λ v. some (v.0 ∷ bs, ((allow (times b.id).asked b.breaker).1, v.1)))
            (refused_visit (times b.id) _ _ b (h ((eq_iff b.id target).0 s)))
      go false s rec = ap (behind b) rec

  -- Where the breaker of every backend called `target` refuses, a call of one of its tools ends the
  -- same way whatever any backend would answer: no request is sent.
  pub tools_call_refused :
      (id : Value) (params : Message) (name target original : String) (bs : List ManagedBackend)
      → split name ≡ some (target, original)
      → All (λ b. b.id ≡ target → (allow (times b.id).asked b.breaker).1 ≡ false) bs
      → tools_call times ask id params name bs ≡ tools_call times other id params name bs
  unfolding tools_call
  tools_call_refused id params name target original bs h a =
      ap (call_resolved times ask id params name bs) h
      ∙ ap (finish id name target bs)
          (refused_first target (insert params "name" (str original)) bs a)
      ∙ sym (ap (call_resolved times other id params name bs) h)
    where
      finish :
          Value
          → String
          → String
          → List ManagedBackend
          → Option Visited
          → List ManagedBackend × Message
      finish id name target bs none = (bs, unknown_tool times ask id name)
      finish id name target bs (some (bs', r)) = (bs', call_answer times ask id target r)
