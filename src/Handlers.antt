-- ===== src/Handlers.antt =====
-- yamp/handler.py: the registry of local handlers and their tools.
use python_yamp.Prelude.{
  String, not, Option, none, some, List, [], ◌∷◌, ◌++◌, if◌then◌else◌, char_eq, nat_eq, string_eq,
  option_eq, pair_eq, int_eq,
}
use python_yamp.Prelude.Dict.{Dict, get, has, insert}
use python_yamp.Json.{Value, str, Message}
use python_yamp.Namespace.{prefix, valid_backend_id}

-- a tool and its `tool["name"]`, which is a text
pub record LocalTool : Type 0 where
  pub name : String
  pub tool : Message

-- A handler: its tools, and what a call of one gives, `none` where it raises.
pub record Handler : Type 0 where
  pub id : String
  pub tools : List LocalTool
  pub call_tool : String → Value → Option Value

abbrev pub Registry : Type 0
Registry = Dict String Handler

unfoldable pub register_all : List Handler → Registry → Option Registry
register_all [] r = some r
register_all (h ∷ hs) r =
    let rest = register_all hs (insert r h.id h) in
    if not (valid_backend_id h.id) then none else if has r h.id then none else rest

-- Registry(handlers): `none` is ValueError
unfoldable pub new_registry : List Handler → Option Registry
new_registry hs = register_all hs []

unfoldable pub handler_for : String → Registry → Option Handler
handler_for id r = get r id

abbrev pub exposed : String → List LocalTool → List Message
exposed id [] = []
exposed id (t ∷ ts) = insert t.tool "name" (str (prefix id t.name)) ∷ exposed id ts

-- Registry.list_tools
unfoldable pub list_tools : Registry → List Message
list_tools [] = []
list_tools ((id, h) ∷ r) = exposed h.id h.tools ++ list_tools r
