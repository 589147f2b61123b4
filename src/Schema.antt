-- ===== src/Schema.antt =====
-- yamp/schema.py: the contract of a local tool's calls. The verdict of the schema library is a parameter:
-- `none` for a schema that it refuses.
use python_yamp.Prelude.{
  Bool, false, Option, none, some, if◌then◌else◌, char_eq, nat_eq, string_eq, option_eq, pair_eq,
  negsuc, int_eq,
}
use python_yamp.Json.{Value, Message, get_value}
use python_yamp.Errors.{error_object}

module _ (library : Message → Value → Option Bool) where
  unfoldable pub is_valid : Message → Value → Bool
  is_valid schema value = elim (library schema value) [ none ↦ false | some verdict ↦ verdict ]

  -- the error, or `none` to proceed
  unfoldable pub validate_call_args : Option Message → Value → Option Message
  validate_call_args none arguments = none
  validate_call_args (some schema) arguments =
      if is_valid schema arguments
      then none
      else some (error_object (negsuc 32601) (some "input schema validation failed"))

  unfoldable pub validate_call_result : Option Message → Message → Option Message
  validate_call_result none r = none
  validate_call_result (some schema) r =
      if is_valid schema (get_value r "structuredContent")
      then none
      else some (error_object (negsuc 32602) (some "output schema validation failed"))
