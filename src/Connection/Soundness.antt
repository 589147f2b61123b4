-- ===== src/Connection/Soundness.antt =====
-- What every operation on a connection keeps of its futures.
use text.Mathlib.TextLemmas.{append_cancel_left}
use python_yamp.Prelude.{
  ℕ, suc, ◌≤◌, String, ◌≡◌, refl, sym, ap, ◌∙◌, subst, ◌≢◌, inl, inr, true, false, not, ◌&&◌, ◌||◌,
  Option, none, some, List, [], ◌∷◌, ◌++◌, arith, eq_iff, if◌then◌else◌, Bool-cases, Option-cases,
  some_injective, ◌==◌, elem, char_eq, nat_eq, string_eq, option_eq, pair_eq, int_eq,
}
use python_yamp.Prelude.Dict.{Dict, get, insert, get-insert}
use python_yamp.Json.{Value, null, bool, num, str, arr, obj, Message}
use python_yamp.Prelude.Text.{show_ℕ-injective}
use python_yamp.Connection.{
  Future, waiting, failed, timed_out, resolved, Connection, request_id, issued, settle, settled,
  put_settled, settle_at, dropped, fail_all, shut, take_answer, expire, concluded,
}

abbrev pub begun : Connection → Option (Connection × Message) → Connection
begun c none = c
begun c (some (c', m)) = c'

pub record Sound (c : Connection) : Type 0 where
  pub numbered :
      (mid : String) (f : Future)
      → get c.futures mid ≡ some f
      → (k : ℕ) × ((k ≤ c.next_id) × (mid ≡ request_id c.id k))
  pub listed : (mid : String) → get c.futures mid ≡ some waiting → elem mid c.pending ≡ true
  pub matched :
      (mid : String) (m : Message)
      → get c.futures mid ≡ some (resolved m)
      → get m "id" ≡ some (str mid)

pub get-settle_at :
    (futures : Dict String Future) (k j : String) (outcome : Future)
    → get (settle_at k outcome futures) j
      ≡ (if k == j then settled outcome (get futures j) else get futures j)
unfolding settle_at
get-settle_at futures k j outcome = go (get futures k) refl
  where
    go :
        (o : Option Future)
        → get futures k ≡ o
        → get (put_settled futures k outcome o) j
          ≡ (if k == j then settled outcome (get futures j) else get futures j)
    go none e = elim (Bool-cases (k == j)) [
      | inl same ↦ rw same (rw (sym ((eq_iff k j).0 same)) (rw e refl))
      | inr other ↦ rw other refl
    ]
    go (some f) e = rw get-insert (elim (Bool-cases (k == j)) [
      | inl same ↦ rw same (rw (sym ((eq_iff k j).0 same)) (rw e refl))
      | inr other ↦ rw other refl
    ])

elem-dropped :
    (mid j : String) (mids : List String)
    → elem j (dropped mid mids) ≡ (elem j mids && not (j == mid))
elem-dropped mid j [] = refl
elem-dropped mid j (m ∷ mids) = elim (Bool-cases (m == mid)) [
  | inl same ↦
      rw same (ground (arith, eq_iff j mid, eq_iff m mid, eq_iff m j, elem-dropped mid j mids))
  | inr other ↦
      rw other (ground (arith, eq_iff j mid, eq_iff m mid, eq_iff m j, elem-dropped mid j mids))
]

elem-append : (j : String) (xs ys : List String) → elem j (xs ++ ys) ≡ (elem j xs || elem j ys)
elem-append j [] ys = refl
elem-append j (x ∷ xs) ys = ground (arith, elem-append j xs ys)

request_id-injective : (id : String) (m n : ℕ) → request_id id m ≡ request_id id n → m ≡ n
unfolding request_id
request_id-injective id m n h =
    show_ℕ-injective m n (append_cancel_left "-" _ _ (append_cancel_left id _ _ h))

request_id-fresh :
    (c : Connection) → Sound c → get c.futures (request_id c.id (suc c.next_id)) ≡ none
request_id-fresh c sound = elim (Option-cases (get c.futures (request_id c.id (suc c.next_id)))) [
  | inl missing ↦ missing
  | inr (f, found) ↦
      let (k, (le, same)) = sound.numbered _ f found in
      absurd (omega (arith, le, request_id-injective c.id (suc c.next_id) k same))
]

-- A future after a settlement: one that is kept, and done where it was the one to settle; or the one
-- that waited.
data After (futures : Dict String Future) (k j : String) (outcome f : Future) : Type 0 where
  kept : get futures j ≡ some f → (k == j) ≡ false → After futures k j outcome f
  done : get futures j ≡ some f → f ≢ waiting → After futures k j outcome f
  at_once : get futures j ≡ some waiting → f ≡ outcome → k ≡ j → After futures k j outcome f

settle_at-After :
    (futures : Dict String Future) (k j : String) (outcome f : Future)
    → get (settle_at k outcome futures) j ≡ some f
    → After futures k j outcome f
unfolding settle
settle_at-After futures k j outcome f h = elim (Bool-cases (k == j)) [
  | inl same ↦
      go (get futures j) refl (rw (get-settle_at futures k j outcome, same) at h)
        ((eq_iff k j).0 same)
  | inr other ↦ kept (rw (get-settle_at futures k j outcome, other) at h) other
]
  where
    go :
        (o : Option Future)
        → get futures j ≡ o
        → settled outcome o ≡ some f
        → k ≡ j
        → After futures k j outcome f
    go none e h same = absurd (ground arith)
    go (some waiting) e h same = at_once e (sym (some_injective outcome f h)) same
    go (some failed) e h same = done (e ∙ h) (λ w. absurd (ground (arith, h, w)))
    go (some timed_out) e h same = done (e ∙ h) (λ w. absurd (ground (arith, h, w)))
    go (some (resolved m)) e h same = done (e ∙ h) (λ w. absurd (ground (arith, h, w)))

pub settle_at-Sound :
    (c : Connection) (mid : String) (outcome : Future) (pending : List String)
    → Sound c
    → outcome ≢ waiting
    → ((m : Message) → outcome ≡ resolved m → get m "id" ≡ some (str mid))
    → ((j : String) → elem j c.pending ≡ true → (mid == j) ≡ false → elem j pending ≡ true)
    → Sound (record c { futures = settle_at mid outcome c.futures; pending = pending })
settle_at-Sound c mid outcome pending sound over right keeps = record {
  numbered = λ j f h. elim (settle_at-After c.futures mid j outcome f h) [
    | kept e other ↦ sound.numbered j f e
    | done e n ↦ sound.numbered j f e
    | at_once e is same ↦ sound.numbered j waiting e
  ];
  listed = λ j h. elim (settle_at-After c.futures mid j outcome waiting h) [
    | kept e other ↦ keeps j (sound.listed j e) other
    | done e n ↦ absurd (n refl)
    | at_once e is same ↦ absurd (over (sym is))
  ];
  matched = λ j m h. elim (settle_at-After c.futures mid j outcome (resolved m) h) [
    | kept e other ↦ sound.matched j m e
    | done e n ↦ sound.matched j m e
    | at_once e is same ↦ subst (λ i. get m "id" ≡ some (str i)) same (right m (sym is))
  ];
}

dropped_keeps :
    (mid j : String) (mids : List String)
    → elem j mids ≡ true
    → (mid == j) ≡ false
    → elem j (dropped mid mids) ≡ true
dropped_keeps mid j mids h other =
    ground (arith, elem-dropped mid j mids, eq_iff mid j, eq_iff j mid)

fail_all-Sound :
    (c : Connection) (mids : List String)
    → Sound (record c { pending = mids })
    → Sound (record c { futures = fail_all mids c.futures; pending = [] })
unfolding fail_all
fail_all-Sound c [] sound = sound
fail_all-Sound c (mid ∷ mids) sound =
    fail_all-Sound (record c { futures = settle_at mid failed c.futures; pending = mids }) mids
      (settle_at-Sound (record c { pending = mid ∷ mids }) mid failed mids sound
        (λ h. absurd (ground (arith, h))) (λ m h. absurd (ground (arith, h)))
        (λ j h other. ground (arith, h, other)))

pub shut-Sound : (c : Connection) → Sound c → Sound (shut c)
unfolding shut
shut-Sound c sound =
    let s = fail_all-Sound c c.pending sound in
    record { numbered = s.numbered; listed = s.listed; matched = s.matched }

begin-Sound :
    (c : Connection)
    → Sound c
    → Sound (record c {
      next_id = suc c.next_id;
      futures = insert c.futures (request_id c.id (suc c.next_id)) waiting;
      pending = c.pending ++ (request_id c.id (suc c.next_id) ∷ []);
    })
begin-Sound c sound =
    let mid = request_id c.id (suc c.next_id) in
    record {
      numbered = λ j f h. elim (Bool-cases (mid == j)) [
        | inl same ↦ (suc c.next_id, (omega arith, sym ((eq_iff mid j).0 same)))
        | inr other ↦
            let (k, (le, e)) =
              sound.numbered j f (rw (get-insert c.futures mid j waiting, other) at h) in
            (k, (omega (arith, le), e))
      ];
      listed = λ j h. rw (elem-append j c.pending (mid ∷ [])) (elim (Bool-cases (mid == j)) [
        | inl same ↦ rw same (ground arith)
        | inr other ↦ rw (sound.listed j (rw (get-insert c.futures mid j waiting, other) at h)) refl
      ]);
      matched = λ j m h. elim (Bool-cases (mid == j)) [
        | inl same ↦ absurd (ground (arith, rw (get-insert c.futures mid j waiting, same) at h))
        | inr other ↦ sound.matched j m (rw (get-insert c.futures mid j waiting, other) at h)
      ];
    }

pub begun-Sound :
    (c : Connection) (method : String) (params : Option Message)
    → Sound c
    → Sound (begun c (issued c method params))
begun-Sound c method none sound = sound
begun-Sound c method (some params) sound = begin-Sound c sound

abbrev response_of : Future → Message
response_of (resolved m) = m
response_of _ = []

pub take_answer-Sound :
    (message : Message) (id : Option Value) (c : Connection)
    → get message "id" ≡ id
    → Sound c
    → Sound (take_answer message id c).0
take_answer-Sound message none c e sound = sound
take_answer-Sound message (some null) c e sound = sound
take_answer-Sound message (some (bool b)) c e sound = sound
take_answer-Sound message (some (num n)) c e sound = sound
take_answer-Sound message (some (arr vs)) c e sound = shut-Sound c sound
take_answer-Sound message (some (obj fs)) c e sound = shut-Sound c sound
take_answer-Sound message (some (str mid)) c e sound = elim (Bool-cases (elem mid c.pending)) [
  | inl ours ↦ rw ours (
      settle_at-Sound c mid (resolved message) (dropped mid c.pending) sound
        (λ h. absurd (ground (arith, h)))
        (λ m h. subst (λ x. get x "id" ≡ some (str mid)) (ap response_of h) e)
        (λ j. dropped_keeps mid j c.pending))
  | inr other ↦ rw other sound
]

pub conclude-Sound :
    (now : ℕ) (mid : String) (c : Connection) (o : Option Future)
    → get c.futures mid ≡ o
    → Sound c
    → Sound (concluded now mid c o)
conclude-Sound now mid c none e sound = sound
conclude-Sound now mid c (some waiting) e sound = sound
conclude-Sound now mid c (some timed_out) e sound = sound
conclude-Sound now mid c (some (resolved m)) e sound = record {
  numbered = sound.numbered;
  listed = sound.listed;
  matched = sound.matched;
}
conclude-Sound now mid c (some failed) e sound = record {
  numbered = sound.numbered;
  listed = λ j h. elim (Bool-cases (mid == j)) [
    | inl same ↦ absurd (ground (arith, h, e, (eq_iff mid j).0 same))
    | inr other ↦ dropped_keeps mid j c.pending (sound.listed j h) other
  ];
  matched = sound.matched;
}

pub expire-Sound : (now : ℕ) (mid : String) (c : Connection) → Sound c → Sound (expire now mid c)
unfolding expire
expire-Sound now mid c sound =
    let s =
      settle_at-Sound c mid timed_out (dropped mid c.pending) sound
        (λ h. absurd (ground (arith, h))) (λ m h. absurd (ground (arith, h)))
        (λ j. dropped_keeps mid j c.pending) in
    record { numbered = s.numbered; listed = s.listed; matched = s.matched }
