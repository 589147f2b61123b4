-- ===== src/Transport/Tests.antt =====
-- Two messages through the framings and the relay.
use python_yamp.Prelude.{
  none, arith, ◌≡◌, ◌++◌, nat_eq, string_eq, option_eq, pair_eq, int_eq, char_eq, suc, length, refl,
  true, some, List, [], ◌∷◌,
}
use python_yamp.Transport.{
  read_line, finished, Bytes, receive_line, send_line, rstrip, strip_front, data_field, field_value,
  join_lines, sse_loop, receive_sse, split_lines, data_lines, send_sse, pump,
}
use python_yamp.Transport.Events.{Plain, Short, receive_sse-send_sse}
use python_yamp.Transport.Pump.{Fits, has_ended, pump_terminates, relay_carries, written}

abbrev two_messages : List Bytes
two_messages = (123 ∷ 125 ∷ []) ∷ (91 ∷ 32 ∷ 93 ∷ []) ∷ []

abbrev two_lines : Bytes
two_lines = 123 ∷ 10 ∷ 32 ∷ 125 ∷ []

receive_sse-send_sse_example :
    receive_sse 16 (send_sse two_lines ++ send_sse (48 ∷ []))
    ≡ some (some two_lines, send_sse (48 ∷ []))
unfolding Short split_lines
receive_sse-send_sse_example =
    receive_sse-send_sse 16 two_lines (send_sse (48 ∷ [])) refl (ground arith, (ground arith, _))

pump_terminates_example :
    (has_ended (pump (suc (length two_lines)) (receive_line 16) send_sse two_lines) ≡ true)
    × (has_ended (pump (suc (length two_lines)) (receive_sse 16) send_sse two_lines) ≡ true)
pump_terminates_example = pump_terminates 16 send_sse two_lines

relay_carries_example :
    (pump 3 (receive_line 16) send_sse (written send_line two_messages)
      ≡ finished (written send_sse two_messages))
    × (pump 3 (receive_sse 16) send_line (written send_sse two_messages)
        ≡ finished (written send_line two_messages))
unfolding Fits Plain
relay_carries_example =
    relay_carries 16 two_messages (((refl, refl), ground arith), (((refl, refl), ground arith), _))

-- a line over the reader's limit raises
over_limit : receive_line 2 (65 ∷ 66 ∷ 67 ∷ 10 ∷ []) ≡ none
unfolding receive_line read_line
over_limit = refl

-- a carriage return before a newline of the framing does not come back
carriage_return : receive_sse 16 (send_sse (65 ∷ 13 ∷ [])) ≡ some (some (65 ∷ []), [])
unfolding receive_sse send_sse data_lines split_lines sse_loop rstrip field_value strip_front
    join_lines
carriage_return = refl

-- a comment and another field are ignored, and the last event may be without its blank line
ignored_fields :
    receive_sse 16 (58 ∷ 104 ∷ 10 ∷ 105 ∷ 100 ∷ 58 ∷ 49 ∷ 10 ∷ (data_field ++ (55 ∷ [])))
    ≡ some (some (55 ∷ []), [])
unfolding receive_sse sse_loop rstrip field_value strip_front join_lines
ignored_fields = refl
