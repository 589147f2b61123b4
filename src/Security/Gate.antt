-- ===== src/Security/Gate.antt =====
-- What the gate lets through.
use Prim.Native.String.{◌++◌ as append}
use python_yamp.Prelude.{
  String, ◌≡◌, refl, sym, ap, ◌∙◌, subst, ◌↔◌, ◌⊎◌, inl, inr, Bool, true, false, ◌||◌, Option, none,
  some, List, [], ◌∷◌, ◌++◌, if◌then◌else◌, arith, eq_iff, elem, Bool-cases, ◌==◌, is_some, char_eq,
  nat_eq, string_eq, option_eq, pair_eq, int_eq,
}
use python_yamp.Prelude.Text.{starts_with, strip_prefix, strip_prefix_sound, strip_prefix-append}
use python_yamp.Security.{is_loopback, refusal_text, check_bind, before_last, guard_bind}

-- the parts of an address, put together with ":" between them
abbrev pub joined : String → List String → String
joined a [] = a
joined a (b ∷ parts) = append a (append ":" (joined b parts))

-- A text that is localhost, ::1 or [::1], or that begins with "127.".
abbrev pub Local : String → Type 0
Local h =
    (h ≡ "localhost")
    ⊎ ((h ≡ "::1") ⊎ ((h ≡ "[::1]") ⊎ ((rest : String) × (h ≡ append "127." rest))))

abbrev tested : String → Bool
tested h = elem h ("localhost" ∷ "::1" ∷ "[::1]" ∷ []) || starts_with h "127."

Local-begins :
    (h : String) (o : Option String) → strip_prefix "127." h ≡ o → is_some o ≡ true → Local h
Local-begins h none e b = absurd (ground arith)
Local-begins h (some rest) e b = inr (inr (inr (rest, strip_prefix_sound "127." h rest e)))

tested-Local : (h : String) → tested h ≡ true → Local h
tested-Local h b = elim (Bool-cases (h == "localhost")) [
  | inl e ↦ inl ((eq_iff h "localhost").0 e)
  | inr n1 ↦ elim (Bool-cases (h == "::1")) [
    | inl e ↦ inr (inl ((eq_iff h "::1").0 e))
    | inr n2 ↦ elim (Bool-cases (h == "[::1]")) [
      | inl e ↦ inr (inr (inl ((eq_iff h "[::1]").0 e)))
      | inr n3 ↦ Local-begins h (strip_prefix "127." h) refl (
          ground (
            arith,
            eq_iff h "localhost",
            eq_iff h "::1",
            eq_iff h "[::1]",
            eq_iff "localhost" h,
            eq_iff "::1" h,
            eq_iff "[::1]" h,
          ))
    ]
  ]
]

or_true : (a : Bool) → (a || true) ≡ true
or_true true = refl
or_true false = refl

Local-tested : (h : String) → Local h → tested h ≡ true
Local-tested h (inl e) = rw e refl
Local-tested h (inr (inl e)) = rw e refl
Local-tested h (inr (inr (inl e))) = rw e refl
Local-tested h (inr (inr (inr (rest, e)))) =
    ap (λ o. elem h ("localhost" ∷ "::1" ∷ "[::1]" ∷ []) || is_some o)
      (ap (strip_prefix "127.") e ∙ strip_prefix-append "127." rest)
    ∙ or_true (elem h ("localhost" ∷ "::1" ∷ "[::1]" ∷ []))

module _ (strip lower : String → String) where
  before_last-port :
      (a : String) (parts : List String) (port : String)
      → before_last strip lower (a ∷ (parts ++ (port ∷ []))) ≡ joined a parts
  unfolding before_last
  before_last-port a [] port = refl
  before_last-port a (b ∷ []) port = refl
  before_last-port a (b ∷ c ∷ parts) port =
      ap (λ x. append a (append ":" x)) (before_last-port b (c ∷ parts) port)

  -- the gate, given the tests that it makes
  abbrev gated : String → Bool → Bool → Bool → Option String
  gated host loopback auth insecure =
      elim (if loopback || auth then [] else refusal_text strip lower host ∷ []) [
        | [] ↦ none
        | message ∷ rest ↦ if insecure then none else some message
      ]

  gated_iff :
      (host : String) (auth insecure : Bool)
      → (gated host (tested (lower (strip host))) auth insecure ≡ none)
        ↔ ((insecure ≡ true) ⊎ ((auth ≡ true) ⊎ Local (lower (strip host))))
  gated_iff host auth insecure =
      go (tested (lower (strip host))) auth insecure (tested-Local (lower (strip host)))
        (Local-tested (lower (strip host)))
    where
      L : Type 0
      L = Local (lower (strip host))

      go :
          (loopback auth insecure : Bool)
          → (loopback ≡ true → L)
          → (L → loopback ≡ true)
          → (gated host loopback auth insecure ≡ none) ↔ ((insecure ≡ true) ⊎ ((auth ≡ true) ⊎ L))
      go true auth insecure f g = (λ h. inr (inr (f refl)), λ h. refl)
      go false true insecure f g = (λ h. inr (inl refl), λ h. refl)
      go false false true f g = (λ h. inl refl, λ h. refl)
      go false false false f g = (
        (λ h. cc),
        λ h. elim h [
          | inl e ↦ cc
          | inr r ↦ elim r [ inl e ↦ cc | inr l ↦ absurd (ground (arith, g l)) ]
        ],
      )

  -- A listener is let through exactly where the override is given, clients authenticate, or its host, in
  -- lower case and without the space around it, is localhost, ::1 or [::1] or begins with "127."; the host
  -- is all that stands in front of the last ":", or the whole address where there is none.
  pub guard_bind_iff :
      (a : String) (parts : List String) (port : String) (has_client_auth insecure : Bool)
      → ((guard_bind strip lower (a ∷ (parts ++ (port ∷ []))) has_client_auth insecure ≡ none) ↔ (
          (insecure ≡ true) ⊎ ((has_client_auth ≡ true) ⊎ Local (lower (strip (joined a parts))))))
        × ((guard_bind strip lower (a ∷ []) has_client_auth insecure ≡ none)
            ↔ ((insecure ≡ true) ⊎ ((has_client_auth ≡ true) ⊎ Local (lower (strip a)))))
  unfolding guard_bind check_bind is_loopback before_last
  guard_bind_iff a parts port has_client_auth insecure = (
    subst
        (λ host. (gated host (tested (lower (strip host))) has_client_auth insecure ≡ none) ↔ (
          (insecure ≡ true) ⊎ ((has_client_auth ≡ true) ⊎ Local (lower (strip (joined a parts))))))
        (sym (before_last-port a parts port)) (gated_iff (joined a parts) has_client_auth insecure),
    gated_iff a has_client_auth insecure,
  )
