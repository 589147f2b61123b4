-- ===== src/Security/Tests.antt =====
-- A public address without authentication, and a name that only looks like a loopback address.
use python_yamp.Prelude.{
  String, ◌≡◌, refl, ◌↔◌, ◌⊎◌, true, false, none, [], ◌∷◌, char_eq, nat_eq, string_eq, option_eq,
  pair_eq, int_eq,
}
use python_yamp.Prelude.Text.{strip_prefix}
use python_yamp.Security.{is_loopback, guard_bind}
use python_yamp.Security.Gate.{Local, joined, guard_bind_iff}

abbrev as_is : String → String
as_is s = s

guard_bind_iff_example :
    ((guard_bind as_is as_is ("" ∷ "" ∷ "1" ∷ "80" ∷ []) false false ≡ none)
      ↔ ((false ≡ true) ⊎ ((false ≡ true) ⊎ Local (joined "" ("" ∷ "1" ∷ [])))))
    × ((guard_bind as_is as_is ("" ∷ []) false false ≡ none)
        ↔ ((false ≡ true) ⊎ ((false ≡ true) ⊎ Local "")))
guard_bind_iff_example = guard_bind_iff as_is as_is "" ("" ∷ "1" ∷ []) "80" false false

loopback_name : is_loopback as_is as_is "127.example.com" ≡ true
unfolding is_loopback strip_prefix
loopback_name = refl
