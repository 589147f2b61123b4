-- ===== src/Transport/Events.antt =====
-- An event that is written is received as it was sent.
use python_yamp.Prelude.{
  ltb, length, ◌≤◌, ◌+◌, none, ℕ, ◌≡◌, refl, sym, ap, ◌∙◌, subst, Bool, true, false, not, ◌&&◌,
  ◌||◌, some, List, [], ◌∷◌, ◌++◌, arith, if◌then◌else◌, All, ◌==◌, char_eq, nat_eq, string_eq,
  option_eq, pair_eq, int_eq,
}
use python_yamp.Transport.{
  Received, within, Bytes, keep_unless, rstrip, strip_front, data_field, field_value, with_value,
  join_lines, at_newline, sse_loop, receive_sse, onto_first, split_lines, data_line, data_lines,
  send_sse,
}

abbrev pub lacks : ℕ → Bytes → Bool
lacks d [] = true
lacks d (c ∷ s) = not (c == d) && lacks d s

pub append_cons : (a : Bytes) (c : ℕ) (b : Bytes) → (a ++ (c ∷ [])) ++ b ≡ a ++ (c ∷ b)
append_cons [] c b = refl
append_cons (x ∷ a) c b = ap (◌∷◌ x) (append_cons a c b)

pub append_nil {ℓ} : {A : Type ℓ} → (a : List A) → a ++ [] ≡ a
append_nil [] = refl
append_nil (x ∷ a) = ap (◌∷◌ x) (append_nil a)

pub lacks-head :
    (d c : ℕ) (s : Bytes) → lacks d (c ∷ s) ≡ true → ((c == d) ≡ false) × (lacks d s ≡ true)
lacks-head d c s h = (ground (arith, h), ground (arith, h))

rstrip-plain : (s : Bytes) → lacks 10 s ≡ true → lacks 13 s ≡ true → rstrip s ≡ s
unfolding rstrip
rstrip-plain [] h k = refl
rstrip-plain (c ∷ s) h k =
    let (not_lf, h') = lacks-head 10 c s h in
    let (not_cr, k') = lacks-head 13 c s k in
    ap (λ b. keep_unless (b || c == 13) c (rstrip s)) not_lf
    ∙ ap (λ b. keep_unless b c (rstrip s)) not_cr
    ∙ ap (keep_unless false c) (rstrip-plain s h' k')
    ∙ kept s
  where
    kept : (r : Bytes) → keep_unless false c r ≡ c ∷ r
    kept [] = refl
    kept (d ∷ r) = refl

sse_loop-line :
    (limit : ℕ) (line xs s : Bytes) (parts : List Bytes)
    → lacks 10 xs ≡ true
    → sse_loop limit line parts (xs ++ (10 ∷ s)) ≡ sse_loop limit (line ++ xs) parts (10 ∷ s)
unfolding sse_loop
sse_loop-line limit line [] s parts h =
    ap (λ l. sse_loop limit l parts (10 ∷ s)) (sym (append_nil line))
sse_loop-line limit line (c ∷ xs) s parts h =
    let (other, h') = lacks-head 10 c xs h in
    ap
      (λ b.
        if b
        then within limit line (
            at_newline (rstrip line) parts (xs ++ (10 ∷ s))
              (sse_loop limit [] parts (xs ++ (10 ∷ s)))
              (sse_loop limit [] (with_value parts (field_value (rstrip line))) (xs ++ (10 ∷ s))))
        else sse_loop limit (line ++ (c ∷ [])) parts (xs ++ (10 ∷ s)))
      other
    ∙ sse_loop-line limit (line ++ (c ∷ [])) xs s parts h'
    ∙ ap (λ l. sse_loop limit l parts (10 ∷ s)) (append_cons line c xs)

-- no newline and no carriage return
unfoldable pub Plain : Bytes → Type 0
Plain p = (lacks 10 p ≡ true) × (lacks 13 p ≡ true)

-- its data line is within the limit: five bytes of the field's name, a space, and the part
unfoldable pub Short : ℕ → Bytes → Type 0
Short limit p = 6 + length p ≤ limit

pub within_eq :
    (limit : ℕ) (line : Bytes) (r : Received) → length line ≤ limit → within limit line r ≡ r
within_eq limit line r h = ap (λ b. if b then none else r) not_over
  where
    not_over : ltb limit (length line) ≡ false
    not_over = ground (arith, h)

sse_loop-data_line :
    (limit : ℕ) (p s : Bytes) (parts : List Bytes)
    → Plain p
    → Short limit p
    → sse_loop limit [] parts (data_line p ++ s) ≡ sse_loop limit [] (parts ++ (p ∷ [])) s
unfolding sse_loop field_value strip_front Plain Short
sse_loop-data_line limit p s parts plain short =
    let line = data_field ++ (32 ∷ p) in
    ap (λ x. sse_loop limit [] parts (data_field ++ (32 ∷ x))) (append_cons p 10 s)
    ∙ sse_loop-line limit [] line s parts plain.0
    ∙ within_eq limit line _ (omega (arith, short))
    ∙ ap
        (λ l.
          at_newline l parts s (sse_loop limit [] parts s)
            (sse_loop limit [] (with_value parts (field_value l)) s))
        (rstrip-plain line plain.0 plain.1)

append_one : (a : List Bytes) (p : Bytes) (b : List Bytes) → (a ++ (p ∷ [])) ++ b ≡ a ++ (p ∷ b)
append_one [] p b = refl
append_one (x ∷ a) p b = ap (◌∷◌ x) (append_one a p b)

pub append_assoc : (a b c : Bytes) → (a ++ b) ++ c ≡ a ++ (b ++ c)
append_assoc [] b c = refl
append_assoc (x ∷ a) b c = ap (◌∷◌ x) (append_assoc a b c)

sse_loop-data_lines :
    (limit : ℕ) (q : Bytes) (qs ps : List Bytes) (s : Bytes)
    → All Plain ps
    → All (Short limit) ps
    → sse_loop limit [] (q ∷ qs) (data_lines ps ++ s) ≡ some (some (join_lines ((q ∷ qs) ++ ps)), s)
unfolding sse_loop data_lines rstrip
sse_loop-data_lines limit q qs [] s plain short =
    within_eq limit [] (some (some (join_lines (q ∷ qs)), s)) (omega arith)
    ∙ ap (λ l. some (some (join_lines (q ∷ l)), s)) (sym (append_nil qs))
sse_loop-data_lines limit q qs (p ∷ ps) s plain short =
    ap (sse_loop limit [] (q ∷ qs)) (append_assoc (data_line p) (data_lines ps) s)
    ∙ sse_loop-data_line limit p (data_lines ps ++ s) (q ∷ qs) plain.0 short.0
    ∙ sse_loop-data_lines limit q (qs ++ (p ∷ [])) ps s plain.1 short.1
    ∙ ap (λ l. some (some (join_lines (q ∷ l)), s)) (append_one qs p ps)

onto_first-Plain :
    (c : ℕ) (ps : List Bytes)
    → (c == 10) ≡ false
    → (c == 13) ≡ false
    → All Plain ps
    → All Plain (onto_first c ps)
unfolding Plain
onto_first-Plain c [] h k all_plain = ((ground (arith, h), ground (arith, k)), _)
onto_first-Plain c (p ∷ ps) h k all_plain =
    ((added 10 h all_plain.0.0, added 13 k all_plain.0.1), all_plain.1)
  where
    added : (d : ℕ) → (c == d) ≡ false → lacks d p ≡ true → lacks d (c ∷ p) ≡ true
    added d other rest = ap (λ b. not b && lacks d p) other ∙ rest

split_lines-Plain : (s : Bytes) → lacks 13 s ≡ true → All Plain (split_lines s)
unfolding split_lines Plain
split_lines-Plain [] k = ((refl, refl), _)
split_lines-Plain (c ∷ s) k =
    let (not_cr, k') = lacks-head 13 c s k in
    let later = split_lines-Plain s k' in go (c == 10) refl not_cr later
  where
    go :
        (b : Bool)
        → (c == 10) ≡ b
        → (c == 13) ≡ false
        → All Plain (split_lines s)
        → All Plain (if b then [] ∷ split_lines s else onto_first c (split_lines s))
    go true e h later = ((refl, refl), later)
    go false e h later = onto_first-Plain c (split_lines s) e h later

join_lines-onto_first :
    (c : ℕ) (q : Bytes) (qs : List Bytes)
    → join_lines (onto_first c (q ∷ qs)) ≡ c ∷ join_lines (q ∷ qs)
unfolding join_lines
join_lines-onto_first c q [] = refl
join_lines-onto_first c q (r ∷ qs) = refl

-- split never gives the empty list
split_lines-cons : (s : Bytes) → (q : Bytes) × (qs : List Bytes) × split_lines s ≡ q ∷ qs
unfolding split_lines
split_lines-cons [] = ([], [], refl)
split_lines-cons (c ∷ s) = go (c == 10) (split_lines-cons s)
  where
    go :
        (b : Bool)
        → ((q : Bytes) × (qs : List Bytes) × split_lines s ≡ q ∷ qs)
        → (q : Bytes) × (qs : List Bytes) × (if b
              then [] ∷ split_lines s
              else onto_first c (split_lines s))
            ≡ q ∷ qs
    go true rest = ([], split_lines s, refl)
    go false (q, qs, e) = (c ∷ q, qs, ap (onto_first c) e)

join_lines-split_lines : (s : Bytes) → join_lines (split_lines s) ≡ s
unfolding split_lines join_lines
join_lines-split_lines [] = refl
join_lines-split_lines (c ∷ s) = go (c == 10) refl (split_lines-cons s) (join_lines-split_lines s)
  where
    go :
        (b : Bool)
        → (c == 10) ≡ b
        → ((q : Bytes) × (qs : List Bytes) × split_lines s ≡ q ∷ qs)
        → join_lines (split_lines s) ≡ s
        → join_lines (if b then [] ∷ split_lines s else onto_first c (split_lines s)) ≡ c ∷ s
    go true e (q, qs, split) joined =
        let newline : 10 ≡ c = ground (arith, e) in
        ap (λ l. join_lines ([] ∷ l)) split
        ∙ ap (λ l. 10 ∷ join_lines l) (sym split)
        ∙ ap (◌∷◌ 10) joined
        ∙ ap (λ x. x ∷ s) newline
    go false e (q, qs, split) joined =
        ap (λ l. join_lines (onto_first c l)) split
        ∙ join_lines-onto_first c q qs
        ∙ ap (λ l. c ∷ join_lines l) (sym split)
        ∙ ap (◌∷◌ c) joined

-- A payload that has no carriage return, and whose data lines are within the reader's limit, is received
-- from the SSE framing as it was sent, with its newlines, whatever follows it on the stream, and what
-- follows is left for the next message.
pub receive_sse-send_sse :
    (limit : ℕ) (payload rest : Bytes)
    → lacks 13 payload ≡ true
    → All (Short limit) (split_lines payload)
    → receive_sse limit (send_sse payload ++ rest) ≡ some (some payload, rest)
unfolding receive_sse send_sse data_lines
receive_sse-send_sse limit payload rest plain short =
    go (split_lines-cons payload) (split_lines-Plain payload plain)
  where
    go :
        ((q : Bytes) × (qs : List Bytes) × split_lines payload ≡ q ∷ qs)
        → All Plain (split_lines payload)
        → sse_loop limit [] [] (data_lines (split_lines payload) ++ rest)
          ≡ some (some payload, rest)
    go (q, qs, split) all_plain =
        let parts = subst (All Plain) split all_plain in
        let fit = subst (All (Short limit)) split short in
        ap (λ l. sse_loop limit [] [] (data_lines l ++ rest)) split
        ∙ ap (sse_loop limit [] []) (append_assoc (data_line q) (data_lines qs) rest)
        ∙ sse_loop-data_line limit q (data_lines qs ++ rest) [] parts.0 fit.0
        ∙ sse_loop-data_lines limit q [] qs rest parts.1 fit.1
        ∙ ap (λ l. some (some (join_lines l), rest)) (sym split)
        ∙ ap (λ l. some (some l, rest)) (join_lines-split_lines payload)
