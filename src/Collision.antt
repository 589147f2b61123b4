-- ===== src/Collision.antt =====
-- yamp/collision.py: the strategies for a tool name that several backends offer.
pub mod Priority
pub mod Tallies
pub mod Ranking
pub mod Manual
mod Tests
use python_yamp.Prelude.{
  ℕ, zero, suc, ◌+◌, ◌-◌, ◌*◌, ◌≤◌, ◌<◌, String, ◌≡◌, refl, sym, ap, ◌∙◌, subst, ◌≢◌, ◌↔◌, ◌⊎◌, inl,
  inr, Bool, true, false, not, ◌&&◌, ◌||◌, Option, none, some, List, [], ◌∷◌, ◌++◌, map, arith,
  eq_iff, eq_refl, ltb, leb, nat_beq, if◌then◌else◌, is_some, Bool-cases, Option-cases, length, all,
  any, take, keep, length-append, All, All-append, Eq, ◌==◌, beq_refl, elem, nat_eq, string_eq,
  option_eq, pair_eq, ℤ, pos, negsuc, pos_part, neg_part, ◌+ℤ◌, ◌≤ℤ◌, ltb_ℤ, leb_ℤ, int_eq,
}
use python_yamp.Prelude.Dict.{
  Dict, get, has, insert, remove, update, get_or, get-insert, get-remove, get-insert_self, keys,
  values, dict_laws,
}
use python_yamp.Json.{
  Value, null, bool, num, str, arr, obj, Items, nil, cons, Fields, end, field, Message, entries,
  of_entries, items, of_items, entries-of_entries, dict, list, get_value, dict_or_empty, as_str,
  as_dict,
}

-- a tool and its `tool[field]`, which is a text
pub record Tool : Type 0 where
  pub name : String
  pub tool : Message

-- rank = {backend_id: index for index, backend_id in enumerate(priority)}
unfoldable pub ranks : List String → ℕ → Dict String ℕ → Dict String ℕ
ranks [] i d = d
ranks (b ∷ bs) i d = ranks bs (suc i) (insert d b i)

abbrev pub original_of : Option (String × String) → String → String
original_of none name = name
original_of (some (b, original)) name = original

abbrev pub rank_of : Option (String × String) → Dict String ℕ → ℕ → ℕ
rank_of none rank lowest = lowest
rank_of (some (b, original)) rank lowest = get_or rank b lowest

pub record Kept : Type 0 where
  pub best : Dict String ℕ
  pub kept : Dict String Tool
  pub order : List String
  pub discarded : List Tool

-- the first copy of an original name
abbrev pub begin : String → ℕ → Tool → Kept → Kept
begin original rank t s = record {
  best = insert s.best original rank;
  kept = insert s.kept original t;
  order = s.order ++ (original ∷ []);
  discarded = s.discarded;
}

abbrev pub dropped : Option Tool → List Tool
dropped none = []
dropped (some old) = old ∷ []

-- a copy of a higher rank than the one kept
abbrev pub replace : String → ℕ → Tool → Kept → Kept
replace original rank t s = record {
  best = insert s.best original rank;
  kept = insert s.kept original t;
  order = s.order;
  discarded = s.discarded ++ dropped (get s.kept original);
}

abbrev pub refuse : Tool → Kept → Kept
refuse t s = record s { discarded = s.discarded ++ (t ∷ []) }

abbrev pub place : Option ℕ → String → ℕ → Tool → Kept → Kept
place none original rank t s = begin original rank t s
place (some held) original rank t s =
    if ltb rank held then replace original rank t s else refuse t s

-- one round of the loop, given the original name and the rank of the tool
abbrev pub offer : String → ℕ → Tool → Kept → Kept
offer original rank t s = place (get s.best original) original rank t s

module _ (split : String → Option (String × String)) (rank : Dict String ℕ) (lowest : ℕ) where
  abbrev pub original : Tool → String
  original t = original_of (split t.name) t.name

  abbrev pub this_rank : Tool → ℕ
  this_rank t = rank_of (split t.name) rank lowest

  unfoldable pub offers : List Tool → Kept → Kept
  offers [] s = s
  offers (t ∷ ts) s = offers ts (offer (original t) (this_rank t) t s)

abbrev pub nothing_kept : Kept
nothing_kept = record { best = []; kept = []; order = []; discarded = [] }

-- [kept[original] for original in order]
unfoldable pub kept_tools : List String → Dict String Tool → List Tool
kept_tools [] d = []
kept_tools (o ∷ os) d = elim (get d o) [ none ↦ kept_tools os d | some t ↦ t ∷ kept_tools os d ]

-- the tools kept, and those passed to `on_discard` in the order of its calls
unfoldable pub apply_priority :
    List Tool → (String → Option (String × String)) → List String → List Tool × List Tool
apply_priority tools split priority =
    let s = offers split (ranks priority 0 []) (length priority) tools nothing_kept in
    (kept_tools s.order s.kept, s.discarded)

unfoldable pub target : Dict String String → String → String
target overrides name = get_or overrides name name

abbrev pub claimed : Option String → String → Bool
claimed none name = false
claimed (some other) name = not (other == name)

unfoldable pub assign :
    Dict String String
    → List String
    → Dict String String
    → Dict String String
    → Option (Dict String String)
assign overrides [] exposed seen = some exposed
assign overrides (name ∷ names) exposed seen =
    let t = target overrides name in
    let rest = assign overrides names (insert exposed name t) (insert seen t name) in
    if claimed (get seen t) name then none else rest

-- `none` is UnresolvedCollision
unfoldable pub resolve_manual : List String → Dict String String → Option (Dict String String)
resolve_manual names overrides = assign overrides names [] []
