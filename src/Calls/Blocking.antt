-- ===== src/Calls/Blocking.antt =====
-- A filter that fails closed stops a call before anything is sent.
use python_yamp.Prelude.{
  String, ◌≡◌, refl, ap, ◌∙◌, Bool, true, false, Option, none, some, List, [], ◌∷◌, ◌++◌, arith,
  char_eq, nat_eq, string_eq, option_eq, pair_eq, ℤ, int_eq,
}
use python_yamp.Json.{Message}
use python_yamp.Filters.{Outcome, forward, block, fail_closed, Context, Filter, run}
use python_yamp.Filters.Interests.{message_context}
use python_yamp.Filters.Chain.{is_forward, fail_closed_blocks}
use python_yamp.Requests.{Sent}
use python_yamp.Calls.{Settings, Libraries, run_in, filtered_by, filtered}
use python_yamp.Aggregate.{CapabilityKind, Host}
use python_yamp.Calls.Dispatch.{after_chain, route_call}
use python_yamp.Calls.Reach.{sent_by}

module _ (libs : Libraries) (available : String → Bool) (ask : Sent → Option Message)
    (now : ℤ) where
  after_chain-blocked :
      (settings : Settings) (cap : CapabilityKind) (h : Host) (message : Message)
      (o : Option Outcome)
      → is_forward o ≡ false
      → sent_by (after_chain libs available ask now settings cap h message o) ≡ []
  after_chain-blocked settings cap h message none b = refl
  after_chain-blocked settings cap h message (some (forward m)) b = absurd (ground arith)
  after_chain-blocked settings cap h message (some (block r q)) b = refl

  -- While a filter that is interested in a call fails closed and raises, wherever it stands in the chain,
  -- nothing is sent to any backend for that call.
  pub broken_filter_stops :
      (settings : Settings) (cap : CapabilityKind) (h : Host) (message : Message)
      (fs gs : List Filter) (f : Filter) (context : Context)
      → settings.chain ≡ some (fs ++ (f ∷ gs))
      → message_context libs.codec message "c2u" ≡ some context
      → f.cares context ≡ true
      → ((m : Message) → f.evaluate "request" m ≡ none)
      → f.failure_policy ≡ fail_closed
      → sent_by (route_call libs available ask now settings cap h message) ≡ []
  unfolding route_call filtered
  broken_filter_stops settings cap h message fs gs f context chain told cares raises closed_ =
      ap
        (λ c.
          sent_by (
            after_chain libs available ask now settings cap h message (filtered_by libs message c)))
        chain
      ∙ ap
          (λ c. sent_by (
            after_chain libs available ask now settings cap h message
              (run_in (fs ++ (f ∷ gs)) message c)))
          told
      ∙ after_chain-blocked settings cap h message (run (fs ++ (f ∷ gs)) "request" context message)
          (fail_closed_blocks fs gs f "request" context message cares raises closed_)
