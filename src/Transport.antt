-- ===== src/Transport.antt =====
-- yamp/transport/line.py and sse.py: the framings, on the bytes of a stream up to its end; and
-- yamp/relay.py: the pump between two of them. `limit` is the limit of the stream's reader: a line that is
-- longer, newline apart, raises LimitOverrunError, whether its newline or the end of the stream follows.
pub mod Events
pub mod Pump
mod Tests
use python_yamp.Prelude.{
  ltb, length, ℕ, zero, suc, Bool, not, ◌||◌, Option, none, some, List, [], ◌∷◌, ◌++◌,
  if◌then◌else◌, ◌==◌, char_eq, nat_eq, string_eq, option_eq, pair_eq, int_eq,
}

abbrev pub Bytes : Type 0
Bytes = List ℕ

-- what a receive gives, None at the end of the stream, and the bytes after it; `none` where it raises
abbrev pub Received : Type 0
Received = Option (Option Bytes × Bytes)

-- readuntil(b"\n"): the line without its newline, and the bytes after it; `none` where there is none
abbrev pub longer : ℕ → Option (Bytes × Bytes) → Option (Bytes × Bytes)
longer c none = none
longer c (some (line, rest)) = some (c ∷ line, rest)

unfoldable pub read_line : Bytes → Option (Bytes × Bytes)
read_line [] = none
read_line (c ∷ s) = let later = longer c (read_line s) in if c == 10 then some ([], s) else later

-- exc.partial or None
abbrev pub partial_line : Bytes → Option Bytes
partial_line [] = none
partial_line (c ∷ s) = some (c ∷ s)

-- readuntil raises where the line, or what is left of the stream, is over the limit
abbrev pub within : ℕ → Bytes → Received → Received
within limit line r = if ltb limit (length line) then none else r

abbrev pub line_or_partial : ℕ → Bytes → Option (Bytes × Bytes) → Received
line_or_partial limit s none = within limit s (some (partial_line s, []))
line_or_partial limit s (some (line, rest)) = within limit line (some (some line, rest))

-- LineTransport.receive
unfoldable pub receive_line : ℕ → Bytes → Received
receive_line limit s = line_or_partial limit s (read_line s)

-- LineTransport.send: the bytes written
unfoldable pub send_line : Bytes → Bytes
send_line payload = payload ++ (10 ∷ [])

-- line.rstrip(b"\r\n")
abbrev pub keep_unless : Bool → ℕ → Bytes → Bytes
keep_unless newline c [] = if newline then [] else c ∷ []
keep_unless newline c (d ∷ s) = c ∷ d ∷ s

unfoldable pub rstrip : Bytes → Bytes
rstrip [] = []
rstrip (c ∷ s) = keep_unless (c == 10 || c == 13) c (rstrip s)

-- s[len(p):] where s starts with p
unfoldable pub strip_front : Bytes → Bytes → Option Bytes
strip_front [] s = some s
strip_front (d ∷ p) [] = none
strip_front (d ∷ p) (c ∷ s) = if c == d then strip_front p s else none

abbrev pub data_field : Bytes
data_field = 100 ∷ 97 ∷ 116 ∷ 97 ∷ 58 ∷ []

-- one leading space is stripped
abbrev pub without_space : Bytes → Bytes
without_space [] = []
without_space (c ∷ s) = if c == 32 then s else c ∷ s

-- the value of a data line, `_field_value`; `none` for a line that is none
unfoldable pub field_value : Bytes → Option Bytes
field_value line = elim (strip_front data_field line) [
  | none ↦ none
  | some value ↦ some (without_space value)
]

abbrev pub with_value : List Bytes → Option Bytes → List Bytes
with_value parts none = parts
with_value parts (some value) = parts ++ (value ∷ [])

-- b"\n".join(parts)
unfoldable pub join_lines : List Bytes → Bytes
join_lines [] = []
join_lines (p ∷ []) = p
join_lines (p ∷ q ∷ ps) = p ++ (10 ∷ join_lines (q ∷ ps))

abbrev pub joined_or_none : List Bytes → Option Bytes
joined_or_none [] = none
joined_or_none (p ∷ ps) = some (join_lines (p ∷ ps))

-- a line that is complete: a blank one ends an event that has data, a comment is skipped
abbrev pub at_newline : Bytes → List Bytes → Bytes → Received → Received → Received
at_newline [] [] s skipped taken = skipped
at_newline [] (p ∷ ps) s skipped taken = some (some (join_lines (p ∷ ps)), s)
at_newline (d ∷ line) parts s skipped taken = if d == 58 then skipped else taken

-- The loop of SseTransport.receive, with the bytes of the line that is being read and the values so far.
unfoldable pub sse_loop : ℕ → Bytes → List Bytes → Bytes → Received
sse_loop limit line parts [] =
    within limit line (some (joined_or_none (with_value parts (field_value (rstrip line))), []))
sse_loop limit line parts (c ∷ s) =
    let more = sse_loop limit (line ++ (c ∷ [])) parts s in
    let skipped = sse_loop limit [] parts s in
    let taken = sse_loop limit [] (with_value parts (field_value (rstrip line))) s in
    if c == 10 then within limit line (at_newline (rstrip line) parts s skipped taken) else more

-- SseTransport.receive
unfoldable pub receive_sse : ℕ → Bytes → Received
receive_sse limit s = sse_loop limit [] [] s

abbrev pub onto_first : ℕ → List Bytes → List Bytes
onto_first c [] = (c ∷ []) ∷ []
onto_first c (p ∷ ps) = (c ∷ p) ∷ ps

-- payload.split(b"\n")
unfoldable pub split_lines : Bytes → List Bytes
split_lines [] = [] ∷ []
split_lines (c ∷ s) = let rest = split_lines s in if c == 10 then [] ∷ rest else onto_first c rest

-- one data line of an event
abbrev pub data_line : Bytes → Bytes
data_line part = data_field ++ (32 ∷ (part ++ (10 ∷ [])))

unfoldable pub data_lines : List Bytes → Bytes
data_lines [] = 10 ∷ []
data_lines (p ∷ ps) = data_line p ++ data_lines ps

-- SseTransport.send: the bytes written
unfoldable pub send_sse : Bytes → Bytes
send_sse payload = data_lines (split_lines payload)

-- What a pump has done: it wrote the bytes and came to the end of the stream, or wrote them and raised.
pub data Pumped : Type 0 where
  finished failed : Bytes → Pumped
  out_of_fuel : Pumped

abbrev pub then_sent : Bytes → Pumped → Pumped
then_sent sent (finished later) = finished (sent ++ later)
then_sent sent (failed later) = failed (sent ++ later)
then_sent sent out_of_fuel = out_of_fuel

abbrev pub pumped : (Bytes → Bytes) → (Bytes → Pumped) → Received → Pumped
pumped send later none = failed []
pumped send later (some (none, rest)) = finished []
pumped send later (some (some message, rest)) = then_sent (send message) (later rest)

-- Relay._pump: the bytes written to the other side
unfoldable pub pump : ℕ → (Bytes → Received) → (Bytes → Bytes) → Bytes → Pumped
pump zero receive send s = out_of_fuel
pump (suc n) receive send s = pumped send (pump n receive send) (receive s)
