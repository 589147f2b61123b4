-- ===== src/Aggregate/Answer.antt =====
-- yamp/router.py: `_aggregate`, the answer to a list request.
use python_yamp.Prelude.{
  String, Bool, true, false, ◌&&◌, ◌||◌, Option, none, some, List, [], ◌∷◌, ◌++◌, map,
  if◌then◌else◌, keep, ◌==◌, char_eq, nat_eq, string_eq, option_eq, pair_eq, ℤ, negsuc, int_eq,
}
use python_yamp.Prelude.Dict.{Dict, get_or}
use python_yamp.Json.{Value, null, str, Message, dict, list, get_value, as_str}
use python_yamp.Jsonrpc.{result, error}
use python_yamp.Routing.{name_matches}
use python_yamp.Collision.{Tool, apply_priority, resolve_manual}
use python_yamp.Capability.{NamedTool, disclose}
use python_yamp.Handlers.{Registry, list_tools}
use python_yamp.Server.{attach_directives}
use python_yamp.Variants.{mismatch_data, bind_cursor, resolve_cursor}
use python_yamp.Resilience.Managed.{partial_meta}
use python_yamp.Requests.{Sent, trace_result}
use python_yamp.Aggregate.{CapabilityKind, Host, Query, effective_variant}
use python_yamp.Aggregate.Collect.{renamed, Page, collect}

-- The response, with the router's state after it and the requests sent; or it raises.
pub data Answered : Type 0 where
  answered : Host → List Sent → Message → Answered
  raised : Answered

abbrev pub named : Message → Tool
named tool = record {
  name = elim (as_str (get_value tool "name")) [ none ↦ "" | some name ↦ name ];
  tool = tool;
}

-- the tools of the local handlers that the filter keeps
unfoldable pub local_tools : Registry → List String → List Tool
local_tools r patterns = keep (λ t. name_matches t.name patterns) (map named (list_tools r))

unfoldable pub with_local : CapabilityKind → Host → Query → List Tool → List Tool
with_local cap h q tools =
    if cap.collection == "tools" then tools ++ local_tools h.registry q.patterns else tools

abbrev pub rename : CapabilityKind → Dict String String → Tool → Tool
rename cap mapping t = renamed cap t.tool (get_or mapping t.name t.name)

abbrev pub renamed_all :
    CapabilityKind → List Tool → Option (Dict String String) → Option (List Tool)
renamed_all cap tools none = none
renamed_all cap tools (some mapping) = some (map (rename cap mapping) tools)

-- the explicit renames; `none` for an unresolved collision
unfoldable pub manual_names : CapabilityKind → Host → List Tool → Option (List Tool)
manual_names cap h tools =
    if cap.collection == "tools" && h.strategy == "manual"
    then renamed_all cap tools (resolve_manual (map (λ t. t.name) tools) h.overrides)
    else some tools

unfoldable pub ranked : CapabilityKind → Host → List Tool → List Tool
ranked cap h tools =
    if cap.collection == "tools" && h.strategy == "priority"
    then (apply_priority tools cap.split_name h.priority).0
    else tools

abbrev pub as_named : Tool → NamedTool
as_named t = record { name = t.name; tool = t.tool }

abbrev pub as_tool : NamedTool → Tool
as_tool t = record { name = t.name; tool = t.tool }

unfoldable pub disclosed : CapabilityKind → Host → List Tool → List Tool
disclosed cap h tools =
    if h.disclosing && cap.collection == "tools"
    then map as_tool (disclose (map as_named tools) h.threshold).0
    else tools

abbrev pub cursor_part : (Message → String) → Option String → Dict String String → Message
cursor_part hexed variant [] = []
cursor_part hexed variant (c ∷ cs) = ("nextCursor", str (bind_cursor hexed variant (c ∷ cs))) ∷ []

abbrev pub partial_part : List String → Message
partial_part [] = []
partial_part (b ∷ bs) = ("_meta", dict (partial_meta (b ∷ bs) "backend_unavailable")) ∷ []

abbrev pub with_directives : Option (ℤ × String) → Message → Message
with_directives none body = body
with_directives (some (ttl_ms, scope)) body = attach_directives body ttl_ms scope

unfoldable pub list_body :
    (Message → String) → CapabilityKind → Host → Query → Page → List Tool → Message
list_body hexed cap h q page tools = with_directives h.directives (
    (cap.collection, list (map (λ t. dict t.tool) tools))
    ∷ (cursor_part hexed (effective_variant h.variants q.variant) page.cursors
        ++ partial_part page.unavailable))

abbrev pub traced_answer : Host → List Sent → Value → Option Value → Answered
traced_answer h sent id none = raised
traced_answer h sent id (some v) = answered h sent (result id v)

-- the composed tools that are advertised, from the names that `manual` gives
abbrev pub served :
    (Message → String) → CapabilityKind → Query → Value → Page → Option (List Tool) → Answered
served hexed cap q id page none =
    answered page.host page.sent (error id (negsuc 32602) "manual collision" none)
served hexed cap q id page (some tools) =
    let shown = disclosed cap page.host (ranked cap page.host tools) in
    traced_answer page.host page.sent id
      (trace_result page.host.trace (dict (list_body hexed cap page.host q page shown)))

abbrev pub page_answer :
    (Message → String) → CapabilityKind → Query → Value → Option Page → Answered
page_answer hexed cap q id none = raised
page_answer hexed cap q id (some page) =
    served hexed cap q id page (manual_names cap page.host (with_local cap page.host q page.tools))

abbrev pub is_none : Value → Bool
is_none null = true
is_none _ = false

module _ (available : String → Bool) (ask : Sent → Option Message) (now : ℤ)
    (hexed : Message → String) (unhexed : String → Option Value) where
  abbrev pub by_cursor :
      CapabilityKind → Host → Query → Value → Option (Option String × Dict String String) → Answered
  by_cursor cap h q id (some (variant, cursors)) =
      if variant == effective_variant h.variants q.variant
      then page_answer hexed cap q id (collect available ask now cap h q (some cursors))
      else answered h [] (
          error id (negsuc 32601) "Cursor invalid for requested variant"
            (some (mismatch_data variant (effective_variant h.variants q.variant))))
  by_cursor cap h q id none =
      if is_none q.cursor || h.single
      then page_answer hexed cap q id (collect available ask now cap h q none)
      else answered h [] (error id (negsuc 32601) "unknown cursor" none)

  -- `_aggregate`; the text of a manual collision's message is cut after its first words
  unfoldable pub aggregate : CapabilityKind → Host → Query → Value → Answered
  aggregate cap h q id = by_cursor cap h q id (resolve_cursor unhexed q.cursor)
