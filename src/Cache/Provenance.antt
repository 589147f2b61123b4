-- ===== src/Cache/Provenance.antt =====
-- What the cache answers, from the history of its calls: a refinement of the latest write per key.
use python_yamp.Prelude.{
  String, ◌≡◌, refl, sym, ap, ◌∙◌, subst, inl, inr, not, ◌&&◌, Option, none, some, List, [], ◌∷◌,
  arith, eq_iff, if◌then◌else◌, Bool-cases, Option-cases, All, ◌==◌, pair_beq_iff, nat_eq,
  string_eq, option_eq, pair_eq, ℤ, pos, ◌+ℤ◌, ◌≤ℤ◌, leb_ℤ, int_eq,
}
use python_yamp.Prelude.Dict.{Dict, get, remove, get-insert, get-remove}
use python_yamp.Json.{Message}
use python_yamp.Cache.{
  Entry, ListCache, lookup, serve, put, ttl_of, scope_of, ttl_ms_key, cache_scope_key,
  private_scope, new_cache, drop_backend, invalidate_backend,
}

-- A call with the clock's value at it.
pub data Event : Type 0 where
  got : ℤ → String → String → Option String → Event
  stored : ℤ → String → String → Option String → Message → Event
  invalidated : ℤ → String → Event

abbrev pub time : Event → ℤ
time (got t b m p) = t
time (stored t b m p r) = t
time (invalidated t b) = t

abbrev pub apply : Event → ListCache → ListCache
apply (got t b m p) c = (lookup t b m p c).0
apply (stored t b m p r) c = put t b m p r c
apply (invalidated t b) c = invalidate_backend b c

unfoldable pub run : List Event → ListCache → ListCache
run [] c = c
run (e ∷ es) c = run es (apply e c)

-- The entry that a write makes, or none where its freshness is over at once.
abbrev pub written : ℤ → ℤ → Option String → Message → Option Entry
written default_ttl t p r =
    let ttl = ttl_of default_ttl (get r ttl_ms_key) in
    let scope = scope_of (get r cache_scope_key) in
    if leb_ℤ ttl (pos 0)
    then none
    else some (record {
      result = r;
      expires_at = t +ℤ ttl;
      scope = scope;
      principal = if scope == private_scope then p else none;
    })

-- What a call makes of the latest entry under a key: reads change nothing.
abbrev pub effect : ℤ → (String × String) → Event → Option Entry → Option Entry
effect default_ttl key (got t b m p) o = o
effect default_ttl key (stored t b m p r) o = if (b, m) == key then written default_ttl t p r else o
effect default_ttl key (invalidated t b) o = if key.0 == b then none else o

unfoldable pub latest : ℤ → (String × String) → List Event → Option Entry → Option Entry
latest default_ttl key [] o = o
latest default_ttl key (e ∷ es) o = latest default_ttl key es (effect default_ttl key e o)

-- Fresh at `now`, and public or of the same principal.
abbrev pub visible : ℤ → Option String → Option Entry → Option Message
visible now principal none = none
visible now principal (some e) =
    if leb_ℤ e.expires_at now
    then none
    else if e.scope == private_scope && not (e.principal == principal)
    then none
    else some e.result

abbrev fresh : ℤ → Option Entry → Option Entry
fresh now none = none
fresh now (some e) = if leb_ℤ e.expires_at now then none else some e

pub get-drop_backend :
    (b : String) (d : Dict (String × String) Entry) (key : String × String)
    → get (drop_backend b d) key ≡ (if key.0 == b then none else get d key)
unfolding drop_backend get
get-drop_backend b [] key = ground arith
get-drop_backend b (((b', m'), e) ∷ d) (k, m) =
    ground (arith, get-drop_backend b d (k, m), eq_iff b' k, eq_iff b' b, eq_iff k b)

-- Up to entries that are not fresh at `now`, the cache holds the latest entries `o`.
abbrev Agree : ℤ → ListCache → ((String × String) → Option Entry) → Type 0
Agree now c o = (key : String × String) → fresh now (get c.entries_ key) ≡ fresh now (o key)

default-apply : (e : Event) (c : ListCache) → (apply e c).default_ttl_ms ≡ c.default_ttl_ms
unfolding lookup put invalidate_backend
default-apply (got t b m p) c = ground arith
default-apply (stored t b m p r) c = ground arith
default-apply (invalidated t b) c = refl

get-put :
    (t : ℤ) (b m : String) (p : Option String) (r : Message) (c : ListCache) (key : String × String)
    → get (put t b m p r c).entries_ key
      ≡ (if (b, m) == key then written c.default_ttl_ms t p r else get c.entries_ key)
unfolding put
get-put t b m p r c key =
    elim (Bool-cases (leb_ℤ (ttl_of c.default_ttl_ms (get r ttl_ms_key)) (pos 0))) [
      | inl over ↦ rw over (get-remove c.entries_ (b, m) key)
      | inr later ↦ rw later (get-insert c.entries_ (b, m) key _)
    ]

-- A read leaves the entries alone, or drops one that is not fresh when it is read.
data Reading (t : ℤ) (key : String × String) (c d : ListCache) : Type 0 where
  same : d.entries_ ≡ c.entries_ → Reading t key c d
  dropped :
      (e : Entry)
      → get c.entries_ key ≡ some e
      → e.expires_at ≤ℤ t
      → d.entries_ ≡ remove c.entries_ key
      → Reading t key c d

read_cases :
    (t : ℤ) (b m : String) (p : Option String) (c : ListCache)
    → Reading t (b, m) c (lookup t b m p c).0
unfolding lookup
read_cases t b m p c = elim (Option-cases (get c.entries_ (b, m))) [
  | inl missing ↦ same (rw missing)
  | inr (e, found) ↦ elim (Bool-cases (leb_ℤ e.expires_at t)) [
    | inl over ↦ dropped e found (ground arith) (rw (found, serve) (rw over))
    | inr fresh_ ↦ same (rw (found, serve) (rw fresh_ (ground arith)))
  ]
]

fresh_over : (now t : ℤ) (e : Entry) → e.expires_at ≤ℤ t → t ≤ℤ now → fresh now (some e) ≡ none
fresh_over now t e h k = ground arith

got-Agree :
    (now t : ℤ) (b m : String) (p : Option String) (c : ListCache)
    (o : (String × String) → Option Entry)
    → t ≤ℤ now
    → Agree now c o
    → Agree now (lookup t b m p c).0 o
got-Agree now t b m p c o h a key = elim (read_cases t b m p c) [
  | same e ↦ rw e (a key)
  | dropped e found over left ↦
      rw (left, get-remove)
        (elim (Bool-cases ((b, m) == key)) [
          | inl here ↦ rw here (
              sym (fresh_over now t e over h)
              ∙ (ap (fresh now) (sym found)
                  ∙ subst (λ k. fresh now (get c.entries_ (b, m)) ≡ fresh now (o k))
                      ((pair_beq_iff (b, m) key).0 here) (a (b, m))))
          | inr there ↦ rw there (a key)
        ])
]

apply-Agree :
    (now : ℤ) (e : Event) (c : ListCache) (o : (String × String) → Option Entry)
    → time e ≤ℤ now
    → Agree now c o
    → Agree now (apply e c) (λ key. effect c.default_ttl_ms key e (o key))
apply-Agree now (got t b m p) c o h a key = got-Agree now t b m p c o h a key
apply-Agree now (stored t b m p r) c o h a key =
    rw get-put
      (elim (Bool-cases ((b, m) == key)) [ inl here ↦ rw here | inr there ↦ rw there (a key) ])
apply-Agree now (invalidated t b) c o h a key =
    unfold invalidate_backend in rw get-drop_backend (ground (arith, a key))

run-Agree :
    (now : ℤ) (es : List Event) (c : ListCache) (o : (String × String) → Option Entry)
    → All (λ e. time e ≤ℤ now) es
    → Agree now c o
    → Agree now (run es c) (λ key. latest c.default_ttl_ms key es (o key))
unfolding run latest
run-Agree now [] c o h a = a
run-Agree now (e ∷ es) c o (h, hs) a =
    subst
      (λ d.
        Agree now (run es (apply e c))
          (λ key. latest d key es (effect c.default_ttl_ms key e (o key))))
      (default-apply e c)
      (run-Agree now es (apply e c) (λ key. effect c.default_ttl_ms key e (o key)) hs
        (apply-Agree now e c o h a))

visible_fresh :
    (now : ℤ) (q : Option String) (o o' : Option Entry)
    → fresh now o ≡ fresh now o'
    → visible now q o ≡ visible now q o'
visible_fresh now q o o' h = ground arith

lookup-visible :
    (now : ℤ) (b m : String) (q : Option String) (c : ListCache)
    → (lookup now b m q c).1 ≡ visible now q (get c.entries_ (b, m))
unfolding lookup
lookup-visible now b m q c = ground arith

-- What the cache answers at `now`, after any calls at times up to `now`, is what the last write to
-- the key lets the principal see: nothing if the backend was invalidated since, if its freshness is
-- over, or if it is private and another principal's.
pub lookup-run :
    (now default_ttl : ℤ) (es : List Event) (b m : String) (q : Option String)
    → All (λ e. time e ≤ℤ now) es
    → (lookup now b m q (run es (new_cache default_ttl))).1
      ≡ visible now q (latest default_ttl (b, m) es none)
lookup-run now default_ttl es b m q h =
    lookup-visible now b m q (run es (new_cache default_ttl))
    ∙ visible_fresh now q _ _ (
        run-Agree now es (new_cache default_ttl) (λ key. none) h (λ key. unfold get in refl) (b, m))
