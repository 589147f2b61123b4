-- ===== src/Transparent/Agreement.antt =====
-- At level 2 a call whose body disagrees with its envelope reaches no backend.
use Prim.Native.String.{◌++◌ as append}
use python_yamp.Prelude.{
  String, ◌≡◌, false, Option, some, ◌==◌, char_eq, nat_eq, string_eq, option_eq, pair_eq, int_eq,
}
use python_yamp.Json.{Value, str, Message, dict, get_value}
use python_yamp.Stateless.{is_text}

-- The body is the JSON text of a tools/call for a name.
pub record Body (loads : String → Option Value) (v : Value) (method name : String) : Type 0 where
  pub text : String
  pub message : Message
  pub params : Message
  pub is_text : v ≡ str text
  pub is_full : (text == "") ≡ false
  pub is_object : loads text ≡ some (dict message)
  pub has_method : get_value message "method" ≡ str method
  pub has_params : get_value message "params" ≡ dict params
  pub has_name : get_value params "name" ≡ str name
