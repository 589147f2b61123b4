-- ===== src/Content/Paths.antt =====
-- Reading and writing at a path.
use python_yamp.Prelude.{
  ℕ, zero, suc, ◌≡◌, refl, sym, ap, ◌∙◌, inl, inr, Bool, true, false, Option, none, some, List, [],
  ◌∷◌, arith, eq_iff, nat_beq, if◌then◌else◌, Bool-cases, ◌==◌, char_eq, nat_eq, string_eq,
  option_eq, pair_eq, int_eq,
}
use python_yamp.Prelude.Dict.{get-insert, get-insert_self}
use python_yamp.Json.{
  Value, null, bool, num, str, arr, obj, entries, items, entries-of_entries, items-of_items,
}
use python_yamp.Content.{Segment, key, index, PathTo, nth, set_nth, child, put_child, write_at}

-- what stands at a path
unfoldable pub read_at : Value → PathTo → Option Value
read_at root [] = some root
read_at root (s ∷ path) = elim (child root s) [ none ↦ none | some c ↦ read_at c path ]

abbrev pub segment_beq : Segment → Segment → Bool
segment_beq (key a) (key b) = a == b
segment_beq (index m) (index n) = m == n
segment_beq a b = false

-- two paths that part at some segment: neither leads through the other
abbrev pub apart : PathTo → PathTo → Bool
apart [] q = false
apart (s ∷ p) [] = false
apart (s ∷ p) (r ∷ q) = if segment_beq s r then apart p q else true

segment_beq_path : (s r : Segment) → segment_beq s r ≡ true → s ≡ r
segment_beq_path (key a) (key b) h = ap key ((eq_iff a b).0 h)
segment_beq_path (index m) (index n) h = ap index (ground (arith, h))
segment_beq_path (key a) (index n) h = absurd (ground arith)
segment_beq_path (index m) (key b) h = absurd (ground arith)

nth-set_nth :
    (vs : List Value) (n : ℕ) (v w : Value) → nth vs n ≡ some v → nth (set_nth vs n w) n ≡ some w
nth-set_nth [] n v w h = absurd (ground arith)
nth-set_nth (x ∷ vs) zero v w h = refl
nth-set_nth (x ∷ vs) (suc n) v w h = nth-set_nth vs n v w h

nth-set_nth_other :
    (vs : List Value) (n m : ℕ) (w : Value)
    → nat_beq n m ≡ false
    → nth (set_nth vs n w) m ≡ nth vs m
nth-set_nth_other [] n m w h = refl
nth-set_nth_other (x ∷ vs) zero zero w h = absurd (ground arith)
nth-set_nth_other (x ∷ vs) zero (suc m) w h = refl
nth-set_nth_other (x ∷ vs) (suc n) zero w h = refl
nth-set_nth_other (x ∷ vs) (suc n) (suc m) w h = nth-set_nth_other vs n m w (ground (arith, h))

child-put_child :
    (root : Value) (s : Segment) (v w : Value)
    → child root s ≡ some v
    → child (put_child root s w) s ≡ some w
child-put_child (obj fs) (key k) v w h = rw entries-of_entries (get-insert_self (entries fs) k w)
child-put_child (arr vs) (index n) v w h = rw items-of_items (nth-set_nth (items vs) n v w h)
child-put_child (obj fs) (index n) v w h = absurd (ground arith)
child-put_child (arr vs) (key k) v w h = absurd (ground arith)
child-put_child null s v w h = absurd (ground arith)
child-put_child (bool b) s v w h = absurd (ground arith)
child-put_child (num n) s v w h = absurd (ground arith)
child-put_child (str t) s v w h = absurd (ground arith)

child-put_child_other :
    (root : Value) (s r : Segment) (w : Value)
    → segment_beq s r ≡ false
    → child (put_child root s w) r ≡ child root r
child-put_child_other (obj fs) (key k) (key j) w h =
    rw entries-of_entries (rw (get-insert (entries fs) k j w) (rw h refl))
child-put_child_other (obj fs) (key k) (index n) w h = refl
child-put_child_other (arr vs) (index n) (index m) w h =
    rw items-of_items (nth-set_nth_other (items vs) n m w h)
child-put_child_other (arr vs) (index n) (key j) w h = refl
child-put_child_other (obj fs) (index n) r w h = refl
child-put_child_other (arr vs) (key k) r w h = refl
child-put_child_other null s r w h = refl
child-put_child_other (bool b) s r w h = refl
child-put_child_other (num n) s r w h = refl
child-put_child_other (str t) s r w h = refl

-- Where something stands at the path, a write succeeds, what is read there afterwards is what was
-- written, and every path that parts from it reads as before.
abbrev pub Written : Value → PathTo → Value → Value → Type 0
Written root path v root' =
    (write_at root path v ≡ some root')
    × (read_at root' path ≡ some v)
    × ((q : PathTo) → apart path q ≡ true → read_at root' q ≡ read_at root q)

pub read_at-child :
    (root c : Value) (s : Segment) (q : PathTo)
    → child root s ≡ some c
    → read_at root (s ∷ q) ≡ read_at c q
unfolding read_at
read_at-child root c s q e =
    ap (λ o. elim o as (λ _. Option Value) [ none ↦ none | some x ↦ read_at x q ]) e

under-Written :
    (root : Value) (s : Segment) (path : PathTo) (v c c' : Value)
    → child root s ≡ some c
    → Written c path v c'
    → (q : PathTo) → apart (s ∷ path) q ≡ true
    → read_at (put_child root s c') q ≡ read_at root q
unfolding read_at
under-Written root s path v c c' e (w, r, f) [] a = absurd (ground arith)
under-Written root s path v c c' e (w, r, f) (t ∷ q) a = elim (Bool-cases (segment_beq s t)) [
  | inl same ↦ rw (sym (segment_beq_path s t same)) (
      read_at-child (put_child root s c') c' s q (child-put_child root s c c' e)
      ∙ f q (rw same at a)
      ∙ sym (read_at-child root c s q e))
  | inr other ↦
      ap (λ o. elim o as (λ _. Option Value) [ none ↦ none | some x ↦ read_at x q ])
        (child-put_child_other root s t c' other)
]

pub write_at-Written :
    (root : Value) (path : PathTo) (v old : Value)
    → read_at root path ≡ some old
    → (root' : Value) × Written root path v root'
unfolding read_at write_at
write_at-Written root [] v old h = (v, (refl, refl, λ q a. absurd (ground arith)))
write_at-Written root (s ∷ path) v old h =
    go (child root s) refl h (λ c. write_at-Written c path v old)
  where
    go :
        (c : Option Value)
        → child root s ≡ c
        → (elim c as (λ _. Option Value) [ none ↦ none | some x ↦ read_at x path ]) ≡ some old
        → ((x : Value) → read_at x path ≡ some old → (x' : Value) × Written x path v x')
        → (root' : Value) × Written root (s ∷ path) v root'
    go none e h rec = absurd (ground arith)
    go (some c) e h rec =
        let (c', done) = rec c h in
        (
          put_child root s c',
          (
            rw (e, done.0) refl,
            read_at-child (put_child root s c') c' s path (child-put_child root s c c' e) ∙ done.1,
            under-Written root s path v c c' e done,
          ),
        )
