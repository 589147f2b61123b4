-- ===== src/Transport/Pump.antt =====
-- What the pump of a relay does: it ends, and it carries messages between the framings.
use python_yamp.Prelude.{
  sym, subst, ◌+◌, ◌≤◌, ltb, All, ℕ, zero, suc, ◌<◌, ◌≡◌, refl, ap, ◌∙◌, Bool, true, false, Option,
  none, some, List, [], ◌∷◌, ◌++◌, arith, if◌then◌else◌, length, ◌==◌, char_eq, nat_eq, string_eq,
  option_eq, pair_eq, int_eq,
}
use python_yamp.Transport.Events.{
  Plain, Short, within_eq, lacks-head, lacks, append_cons, receive_sse-send_sse,
}
use python_yamp.Transport.{
  Pumped, finished, failed, out_of_fuel, within, split_lines, onto_first, Bytes, Received, longer,
  read_line, line_or_partial, receive_line, send_line, rstrip, strip_front, field_value, with_value,
  at_newline, sse_loop, receive_sse, send_sse, then_sent, pumped, pump,
}

read_line-append :
    (p rest : Bytes) → lacks 10 p ≡ true → read_line (p ++ (10 ∷ rest)) ≡ some (p, rest)
unfolding read_line
read_line-append [] rest h = refl
read_line-append (c ∷ p) rest h =
    let (other, h') = lacks-head 10 c p h in
    ap (λ b. if b then some ([], p ++ (10 ∷ rest)) else longer c (read_line (p ++ (10 ∷ rest))))
      other
    ∙ ap (longer c) (read_line-append p rest h')

-- A payload that has no newline and is within the reader's limit is received from the line framing as it
-- was sent, whatever follows it on the stream, and what follows is left for the next message.
pub receive_line-send_line :
    (limit : ℕ) (payload rest : Bytes)
    → lacks 10 payload ≡ true
    → length payload ≤ limit
    → receive_line limit (send_line payload ++ rest) ≡ some (some payload, rest)
unfolding receive_line send_line
receive_line-send_line limit payload rest h fit =
    ap (λ s. line_or_partial limit s (read_line s)) (append_cons payload 10 rest)
    ∙ ap (line_or_partial limit (payload ++ (10 ∷ rest))) (read_line-append payload rest h)
    ∙ within_eq limit payload _ fit

-- a receive that gives a message has taken some of the stream
Consumes : (Bytes → Received) → Type 0
Consumes receive =
    (s message rest : Bytes) → receive s ≡ some (some message, rest) → length rest < length s

-- the pump came to its end, with a result or an exception
abbrev pub has_ended : Pumped → Bool
has_ended (finished sent) = true
has_ended (failed sent) = true
has_ended out_of_fuel = false

pump_ends :
    (receive : Bytes → Received) (send : Bytes → Bytes)
    → Consumes receive
    → (n : ℕ) (s : Bytes) → length s < n
    → has_ended (pump n receive send s) ≡ true
unfolding pump Consumes
pump_ends receive send consumes zero s h = ground (arith, h)
pump_ends receive send consumes (suc n) s h =
    go (receive s) refl (pump_ends receive send consumes n)
  where
    sent : (b : Bytes) (p : Pumped) → has_ended p ≡ true → has_ended (then_sent b p) ≡ true
    sent b (finished later) h = refl
    sent b (failed later) h = refl
    sent b out_of_fuel h = h

    go :
        (r : Received)
        → receive s ≡ r
        → ((t : Bytes) → length t < n → has_ended (pump n receive send t) ≡ true)
        → has_ended (pumped send (pump n receive send) r) ≡ true
    go none e ends = refl
    go (some (none, rest)) e ends = refl
    go (some (some message, rest)) e ends =
        let shorter = consumes s message rest e in
        sent (send message) (pump n receive send rest) (ends rest (omega (arith, shorter, h)))

-- what a receive leaves of the stream
abbrev left_of : Received → Bytes
left_of none = []
left_of (some (message, rest)) = rest

abbrev is_message : Received → Bool
is_message (some (some message, rest)) = true
is_message _ = false

within_left :
    (limit n : ℕ) (line : Bytes) (r : Received)
    → length (left_of r) ≤ n
    → length (left_of (within limit line r)) ≤ n
within_left limit n line r h = go (ltb limit (length line))
  where
    go : (b : Bool) → length (left_of (if b then none else r)) ≤ n
    go true = omega arith
    go false = h

abbrev at_eof : Received
at_eof = some (none, [])

-- an empty line at the end of the stream is no message
no_message :
    (limit : ℕ) (message rest : Bytes) → within limit [] at_eof ≡ some (some message, rest) → ⊥
no_message limit message rest = go (ltb limit 0)
  where
    go : (b : Bool) → (if b then none else at_eof) ≡ some (some message, rest) → ⊥
    go true h = ground (arith, ap is_message h)
    go false h = ground (arith, ap is_message h)

abbrev LeftBelow : ℕ → Option (Bytes × Bytes) → Type 0
LeftBelow n none = Unit
LeftBelow n (some (line, rest)) = length rest < n

read_line-length : (s : Bytes) → LeftBelow (length s) (read_line s)
unfolding read_line
read_line-length [] = _
read_line-length (c ∷ s) = go (c == 10) (read_line s) (read_line-length s)
  where
    go :
        (b : Bool) (o : Option (Bytes × Bytes))
        → LeftBelow (length s) o
        → LeftBelow (suc (length s)) (if b then some ([], s) else longer c o)
    go true o h = ground arith
    go false none h = _
    go false (some (line, rest)) h = omega (arith, h)

receive_line-Consumes : (limit : ℕ) → Consumes (receive_line limit)
unfolding receive_line Consumes read_line
receive_line-Consumes limit [] message rest e = absurd (no_message limit message rest e)
receive_line-Consumes limit (c ∷ s) message rest e =
    let shorter =
      subst (λ left. length left ≤ length s) (ap left_of e)
        (left (read_line (c ∷ s)) (read_line-length (c ∷ s))) in
    omega (arith, shorter)
  where
    left :
        (o : Option (Bytes × Bytes))
        → LeftBelow (suc (length s)) o
        → length (left_of (line_or_partial limit (c ∷ s) o)) ≤ length s
    left none h = within_left limit (length s) (c ∷ s) _ (omega arith)
    left (some (line, rest)) h = within_left limit (length s) line _ (omega (arith, h))

-- the length of a stream after its first byte
abbrev below : Bytes → ℕ
below [] = 0
below (c ∷ s) = length s

below-length : (s : Bytes) → below s ≤ length s
below-length [] = ground arith
below-length (c ∷ s) = ground arith

rest_shorter :
    (limit : ℕ) (line : Bytes) (parts : List Bytes) (s : Bytes)
    → length (left_of (sse_loop limit line parts s)) ≤ below s
unfolding sse_loop
rest_shorter limit line parts [] = within_left limit 0 line _ (omega arith)
rest_shorter limit line parts (c ∷ s) =
    go (c == 10) (rstrip line) parts _ _ _ (rest_shorter limit (line ++ (c ∷ [])) parts s)
      (rest_shorter limit [] parts s)
      (rest_shorter limit [] (with_value parts (field_value (rstrip line))) s)
  where
    at_end :
        (l : Bytes) (ps : List Bytes) (skipped taken : Received)
        → length (left_of skipped) ≤ below s
        → length (left_of taken) ≤ below s
        → length (left_of (at_newline l ps s skipped taken)) ≤ length s
    at_end [] [] skipped taken k t = omega (arith, k, below-length s)
    at_end [] (p ∷ ps) skipped taken k t = omega arith
    at_end (d ∷ l) ps skipped taken k t = kept (d == 58)
      where
        kept : (b : Bool) → length (left_of (if b then skipped else taken)) ≤ length s
        kept true = omega (arith, k, below-length s)
        kept false = omega (arith, t, below-length s)

    go :
        (b : Bool) (l : Bytes) (ps : List Bytes) (more skipped taken : Received)
        → length (left_of more) ≤ below s
        → length (left_of skipped) ≤ below s
        → length (left_of taken) ≤ below s
        → length (left_of (if b then within limit line (at_newline l ps s skipped taken) else more))
          ≤ length s
    go false l ps more skipped taken m k t = omega (arith, m, below-length s)
    go true l ps more skipped taken m k t =
        within_left limit (length s) line _ (at_end l ps skipped taken k t)

receive_sse-Consumes : (limit : ℕ) → Consumes (receive_sse limit)
unfolding receive_sse Consumes sse_loop rstrip field_value strip_front
receive_sse-Consumes limit [] message rest e = absurd (no_message limit message rest e)
receive_sse-Consumes limit (c ∷ s) message rest e =
    let shorter =
      subst (λ left. length left ≤ length s) (ap left_of e) (rest_shorter limit [] [] (c ∷ s)) in
    omega (arith, shorter)

-- The pump from a line or an SSE stream ends, at the end of the stream or with the exception of a line
-- over the reader's limit: fuel for one receive more than the stream has bytes is enough for any stream
-- and any framing on the other side.
pub pump_terminates :
    (limit : ℕ) (send : Bytes → Bytes) (s : Bytes)
    → (has_ended (pump (suc (length s)) (receive_line limit) send s) ≡ true)
      × (has_ended (pump (suc (length s)) (receive_sse limit) send s) ≡ true)
pump_terminates limit send s = (
  pump_ends (receive_line limit) send (receive_line-Consumes limit) (suc (length s)) s
      (ground arith),
  pump_ends (receive_sse limit) send (receive_sse-Consumes limit) (suc (length s)) s (ground arith),
)

-- the bytes of the messages in a framing, one after the other
abbrev pub written : (Bytes → Bytes) → List Bytes → Bytes
written send [] = []
written send (m ∷ ms) = send m ++ written send ms

pump_carries :
    (receive : Bytes → Received) (send onward : Bytes → Bytes) (Fit : Bytes → Type 0)
    → receive [] ≡ some (none, [])
    → ((m rest : Bytes) → Fit m → receive (send m ++ rest) ≡ some (some m, rest))
    → (ms : List Bytes) → All Fit ms
    → pump (suc (length ms)) receive onward (written send ms) ≡ finished (written onward ms)
unfolding pump
pump_carries receive send onward Fit at_end round_trip [] fit =
    ap (pumped onward (pump 0 receive onward)) at_end
pump_carries receive send onward Fit at_end round_trip (m ∷ ms) fit =
    ap (pumped onward (pump (suc (length ms)) receive onward))
      (round_trip m (written send ms) fit.0)
    ∙ ap (then_sent (onward m)) (pump_carries receive send onward Fit at_end round_trip ms fit.1)

-- A message on one line, whose data line is within the limit.
unfoldable pub Fits : ℕ → Bytes → Type 0
Fits limit m = Plain m × (6 + length m ≤ limit)

split_lines-plain : (m : Bytes) → lacks 10 m ≡ true → split_lines m ≡ m ∷ []
unfolding split_lines
split_lines-plain [] h = refl
split_lines-plain (c ∷ m) h =
    let (other, h') = lacks-head 10 c m h in
    ap (λ b. if b then [] ∷ split_lines m else onto_first c (split_lines m)) other
    ∙ ap (onto_first c) (split_lines-plain m h')

-- The relay between the line and the SSE framing keeps the messages, their bounds and their bytes, in both
-- directions, where no message has a newline or a carriage return, and each with the six bytes that begin
-- a data line is within the limit of the readers.
pub relay_carries :
    (limit : ℕ) (ms : List Bytes)
    → All (Fits limit) ms
    → (pump (suc (length ms)) (receive_line limit) send_sse (written send_line ms)
        ≡ finished (written send_sse ms))
      × (pump (suc (length ms)) (receive_sse limit) send_line (written send_sse ms)
          ≡ finished (written send_line ms))
unfolding Fits Plain Short receive_line receive_sse sse_loop read_line field_value strip_front
    rstrip
relay_carries limit ms fit = (
  pump_carries (receive_line limit) send_line send_sse (Fits limit)
      (within_eq limit [] _ (omega arith))
      (λ m rest f. receive_line-send_line limit m rest f.0.0 (omega (arith, f.1))) ms fit,
  pump_carries (receive_sse limit) send_sse send_line (Fits limit)
      (within_eq limit [] _ (omega arith))
      (λ m rest f.
        receive_sse-send_sse limit m rest f.0.1
          (subst (All (Short limit)) (sym (split_lines-plain m f.0.0)) (f.1, _)))
      ms fit,
)
