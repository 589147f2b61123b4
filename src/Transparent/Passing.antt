-- ===== src/Transparent/Passing.antt =====
-- The level 1 loop sends on what the policy allows, byte for byte, and answers the rest.
use python_yamp.Prelude.{
  suc, String, ◌≡◌, refl, ap, Bool, true, false, not, Option, none, some, List, [], ◌∷◌, map,
  is_some, length, keep, All, char_eq, nat_eq, string_eq, option_eq, pair_eq, int_eq,
}
use python_yamp.Json.{Value}
use python_yamp.Transparent.{
  Policy, peek_headers, blocked_response, Traffic, allowed_by, passed, client_to_backend,
}

module _ (dumps : Value → String) (loads : String → Option Value) (policy : Policy) where
  -- what the policy says of a raw message's headers
  abbrev pub verdict : String → Option Bool
  verdict raw = allowed_by dumps loads policy (peek_headers loads raw)

  abbrev pub is_yes : Option Bool → Bool
  is_yes none = false
  is_yes (some b) = b

  abbrev pub allowed : String → Bool
  allowed raw = is_yes (verdict raw)

  -- its headers can be read
  unfoldable pub Readable : String → Type 0
  Readable raw = is_some (verdict raw) ≡ true

  -- Of messages whose headers can be read, the loop sends exactly those that the policy allows to the
  -- backend, unchanged and in order; the others are counted, each is answered once, with the same answer,
  -- and the loop comes to the end of the stream.
  pub passes_allowed :
      (raws : List String)
      → All Readable raws
      → ((client_to_backend dumps loads policy raws).to_backend ≡ keep allowed raws)
        × ((client_to_backend dumps loads policy raws).to_client
            ≡ map (λ raw. blocked_response dumps) (keep (λ raw. not (allowed raw)) raws))
        × ((client_to_backend dumps loads policy raws).blocked
            ≡ length (keep (λ raw. not (allowed raw)) raws))
        × ((client_to_backend dumps loads policy raws).at_end ≡ true)
  unfolding client_to_backend Readable
  passes_allowed [] readable = (refl, refl, refl, refl)
  passes_allowed (raw ∷ rest) readable =
      go (verdict raw) readable.0 (client_to_backend dumps loads policy rest)
        (passes_allowed rest readable.1)
    where
      go :
          (v : Option Bool)
          → is_some v ≡ true
          → (t : Traffic)
          → (t.to_backend ≡ keep allowed rest)
            × (t.to_client ≡ map (λ r. blocked_response dumps) (keep (λ r. not (allowed r)) rest))
            × (t.blocked ≡ length (keep (λ r. not (allowed r)) rest))
            × (t.at_end ≡ true)
          → ((passed dumps loads policy raw v t).to_backend
              ≡ (elim (is_yes v) as (λ b. List String) [
                | true ↦ raw ∷ keep allowed rest
                | false ↦ keep allowed rest
              ]))
            × ((passed dumps loads policy raw v t).to_client
                ≡ map
                    (λ r. blocked_response dumps)
                    (elim (not (is_yes v)) as (λ b. List String) [
                      | true ↦ raw ∷ keep (λ r. not (allowed r)) rest
                      | false ↦ keep (λ r. not (allowed r)) rest
                    ]))
            × ((passed dumps loads policy raw v t).blocked
                ≡ length (elim (not (is_yes v)) as (λ b. List String) [
                  | true ↦ raw ∷ keep (λ r. not (allowed r)) rest
                  | false ↦ keep (λ r. not (allowed r)) rest
                ]))
            × ((passed dumps loads policy raw v t).at_end ≡ true)
      go none h t later = (cc, cc, cc, cc)
      go (some true) h t (b, c, n, e) = (ap (◌∷◌ raw) b, c, n, e)
      go (some false) h t (b, c, n, e) = (b, ap (◌∷◌ (blocked_response dumps)) c, ap suc n, e)
