-- ===== src/Subscriptions/Registry.antt =====
-- The registry holds the URIs whose last request was to subscribe, each once.
use python_yamp.Prelude.{
  String, ◌≡◌, refl, ap, ◌∙◌, inl, inr, Bool, true, false, List, [], ◌∷◌, arith, eq_iff,
  if◌then◌else◌, Bool-cases, ◌==◌, elem, nat_eq, string_eq, option_eq, pair_eq, int_eq,
}
use python_yamp.Subscriptions.{
  Subscriptions, no_subscriptions, discard, subscribe, unsubscribe, contains,
}

pub data Request : Type 0 where
  subscribes unsubscribes : String → Request

abbrev pub apply : Request → Subscriptions → Subscriptions
apply (subscribes uri) s = subscribe uri s
apply (unsubscribes uri) s = (unsubscribe uri s).0

unfoldable pub run : List Request → Subscriptions → Subscriptions
run [] s = s
run (r ∷ rs) s = run rs (apply r s)

-- Each URI stands once.
abbrev pub Once : List String → Type 0
Once [] = Unit
Once (u ∷ us) = (elem u us ≡ false) × Once us

elem-discard :
    (uri v : String) (us : List String)
    → Once us
    → elem v (discard uri us) ≡ (if uri == v then false else elem v us)
elem-discard uri v [] o = ground arith
elem-discard uri v (u ∷ us) (fresh, o) =
    ground (arith, elem-discard uri v us o, eq_iff uri v, eq_iff u uri, eq_iff u v)

discard-Once : (uri : String) (us : List String) → Once us → Once (discard uri us)
discard-Once uri [] o = tt
discard-Once uri (u ∷ us) (fresh, o) = elim (Bool-cases (u == uri)) [
  | inl same ↦ rw (same, Once, discard) o
  | inr other ↦
      rw (other, Once, discard) (elem-discard uri u us o ∙ ground arith, discard-Once uri us o)
]

apply-Once : (r : Request) (s : Subscriptions) → Once s.uris → Once (apply r s).uris
unfolding subscribe unsubscribe
apply-Once (subscribes uri) s o = ground arith
apply-Once (unsubscribes uri) s o = ground (arith, discard-Once uri s.uris o)

-- whether the last request about `uri` was to subscribe
abbrev pub wanted : String → Bool → Request → Bool
wanted uri before (subscribes v) = if v == uri then true else before
wanted uri before (unsubscribes v) = if v == uri then false else before

unfoldable pub last_wanted : String → Bool → List Request → Bool
last_wanted uri before [] = before
last_wanted uri before (r ∷ rs) = last_wanted uri (wanted uri before r) rs

contains-apply :
    (uri : String) (r : Request) (s : Subscriptions)
    → Once s.uris
    → contains uri (apply r s) ≡ wanted uri (contains uri s) r
unfolding contains subscribe unsubscribe
contains-apply uri (subscribes v) s o = ground (arith, eq_iff v uri)
contains-apply uri (unsubscribes v) s o = ground (arith, eq_iff v uri, elem-discard v uri s.uris o)

run_lem :
    (uri : String) (rs : List Request) (s : Subscriptions)
    → Once s.uris
    → Once (run rs s).uris × (contains uri (run rs s) ≡ last_wanted uri (contains uri s) rs)
unfolding run last_wanted
run_lem uri [] s o = (o, refl)
run_lem uri (r ∷ rs) s o =
    let (once, e) = run_lem uri rs (apply r s) (apply-Once r s o) in
    (once, e ∙ ap (λ b. last_wanted uri b rs) (contains-apply uri r s o))

-- After any requests, a URI is in the registry exactly when the last request about it was to
-- subscribe, and the registry holds no URI twice.
pub contains-run :
    (uri : String) (rs : List Request)
    → Once (run rs no_subscriptions).uris
      × (contains uri (run rs no_subscriptions) ≡ last_wanted uri false rs)
unfolding contains
contains-run uri rs = let (once, e) = run_lem uri rs no_subscriptions tt in (once, e)
