-- ===== src/Callout/Scans.antt =====
-- What a scan answers when the service fails, and what the cache saves.
use python_yamp.Prelude.{
  String, ◌≡◌, refl, sym, ap, ◌∙◌, subst, inl, inr, Bool, true, false, Option, none, some, arith,
  Bool-cases, Option-cases, some_injective, length, ◌==◌, elem, char_eq, nat_eq, string_eq,
  option_eq, pair_eq, int_eq,
}
use python_yamp.Prelude.Dict.{get, insert, get-insert_self}
use python_yamp.Json.{Value, null, bool, num, str, arr, obj, Message, get_value, dict_or_empty}
use python_yamp.Filters.{fail_closed}
use python_yamp.Callout.{
  Bytes, Codec, Reply, timed_out, broken, gone, payload, CalloutClient, valid_kinds, content_digest,
  exceeds_budget, resolved_kind, failed, verdict_for, parse_verdict, is_continue, VerdictCache,
  cached, stored, parsed, judged, Scanned, call, exchange, escalate, asked, unasked, scan,
}

-- a decoded response whose `verdict` is of the closed set, or is no valid key at all
abbrev pub has_kind : Value → Bool
has_kind (str kind) = elem kind valid_kinds
has_kind (arr kinds) = true
has_kind (obj kinds) = true
has_kind _ = false

abbrev usable_response : Option Value → Bool
usable_response none = false
usable_response (some response) = has_kind (get_value (dict_or_empty response) "verdict")

abbrev pub usable : Codec → Reply → Bool
usable codec (payload raw) = usable_response (codec.decode raw)
usable codec _ = false

abbrev pub Failed : String → Option Message → Type 0
Failed policy verdict = (reason : String) × (verdict ≡ some (failed policy reason))

verdict_for-Failed :
    (codec : Codec) (policy : String) (response : Message) (kind : Value)
    → has_kind kind ≡ false
    → Failed policy (verdict_for codec policy response kind)
unfolding verdict_for
verdict_for-Failed codec policy response null h = ("malformed callout response", refl)
verdict_for-Failed codec policy response (bool b) h = ("malformed callout response", refl)
verdict_for-Failed codec policy response (num n) h = ("malformed callout response", refl)
verdict_for-Failed codec policy response (str kind) h = ("malformed callout response", rw h refl)
verdict_for-Failed codec policy response (arr kinds) h = absurd (ground arith)
verdict_for-Failed codec policy response (obj kinds) h = absurd (ground arith)

judged-Failed :
    (codec : Codec) (policy : String) (reply : Reply)
    → usable codec reply ≡ false
    → Failed policy (judged codec policy reply)
unfolding judged
judged-Failed codec policy timed_out h = ("callout deadline exceeded", refl)
judged-Failed codec policy broken h = ("callout transport error", refl)
judged-Failed codec policy gone h = ("callout closed", refl)
judged-Failed codec policy (payload raw) h = go (codec.decode raw) h
  where
    go :
        (response : Option Value)
        → usable_response response ≡ false
        → Failed policy (parsed codec policy response)
    go none h = ("callout decode error", refl)
    go (some response) h =
        unfold parse_verdict in
        verdict_for-Failed codec policy (dict_or_empty response)
          (get_value (dict_or_empty response) "verdict") h

failed-is_continue : (policy reason : String) → is_continue (failed policy reason) ≡ false
unfolding failed resolved_kind get
failed-is_continue policy reason = elim (Bool-cases (policy == fail_closed)) [
  | inl closed_ ↦ rw closed_ refl
  | inr open_ ↦ rw open_ refl
]

module _ {T : Type 0} (codec : Codec) (ask : T → Message → Reply × T) (client : CalloutClient) where
  -- where no reply of the service is usable
  abbrev pub Down : Type 0
  Down = (t : T) (m : Message) → usable codec (ask t m).0 ≡ false

  exchange-Failed :
      (context : Message) (content : Bytes) (t : T)
      → Down
      → Failed client.failure_policy (exchange codec ask client context content t).0
  unfolding exchange call
  exchange-Failed context content t down =
      judged-Failed codec client.failure_policy (ask t _).0 (down t _)

  escalate-Failed :
      (context : Message) (content : Bytes) (r : Option Message × T)
      → Failed client.failure_policy r.0
      → (escalate codec ask client context content r) ≡ r
  unfolding escalate
  escalate-Failed context content (none, t) (reason, same) = refl
  escalate-Failed context content (some verdict, t) (reason, same) =
      rw
        (ap is_continue (some_injective verdict (failed client.failure_policy reason) same)
          ∙ failed-is_continue client.failure_policy reason)
        refl

  -- Whatever the service was asked before, a scan of a content whose verdict is not held yet resolves a
  -- service that is down by the client's failure policy, and holds on to that.
  pub scan_down :
      (context : Message) (content : Bytes) (cache : Option VerdictCache) (t : T)
      → Down
      → cached cache (content_digest codec content) ≡ none
      → Failed client.failure_policy (scan codec ask client context content cache t).verdict
  unfolding scan
  scan_down context content cache t down unseen =
      elim (Bool-cases (exceeds_budget (length content) client.max_bytes)) [
        | inl over ↦ rw over ("payload exceeds byte budget", refl)
        | inr within ↦
            rw (within, unseen)
              (rw
                (escalate-Failed context content (exchange codec ask client context content t)
                  (exchange-Failed context content t down))
                (exchange-Failed context content t down))
      ]

  scan_over :
      (context : Message) (content : Bytes) (cache : Option VerdictCache) (t : T)
      → exceeds_budget (length content) client.max_bytes ≡ true
      → scan codec ask client context content cache t
        ≡ unasked codec ask client
            (failed client.failure_policy "payload exceeds byte budget")
            cache
            t
  unfolding scan
  scan_over context content cache t over = rw over refl

  scan_hit :
      (context : Message) (content : Bytes) (cache : Option VerdictCache) (t : T) (hit : Message)
      → exceeds_budget (length content) client.max_bytes ≡ false
      → cached cache (content_digest codec content) ≡ some hit
      → scan codec ask client context content cache t ≡ unasked codec ask client hit cache t
  unfolding scan
  scan_hit context content cache t hit within seen = rw (within, seen) refl

  scan_miss :
      (context : Message) (content : Bytes) (cache : Option VerdictCache) (t : T)
      → exceeds_budget (length content) client.max_bytes ≡ false
      → cached cache (content_digest codec content) ≡ none
      → scan codec ask client context content cache t
        ≡ asked codec ask client context content cache t
  unfolding scan
  scan_miss context content cache t within unseen = rw (within, unseen) refl

  -- its final verdict is given again, and the service is not asked
  Repeated : Message → Bytes → T → Scanned T → Type 0
  Repeated context content t s =
      (verdict : Message)
      → s.verdict ≡ some verdict
      → is_continue verdict ≡ false
      → scan codec ask client context content s.cache t ≡ unasked codec ask client verdict s.cache t

  unasked-Repeated :
      (context : Message) (content : Bytes) (m : VerdictCache) (t t' : T) (verdict : Message)
      → scan codec ask client context content (some m) t'
        ≡ unasked codec ask client verdict (some m) t'
      → Repeated context content t' (unasked codec ask client verdict (some m) t)
  unfolding Repeated
  unasked-Repeated context content m t t' verdict same v h final =
      same ∙ ap (λ x. unasked codec ask client x (some m) t') (some_injective verdict v h)

  asked-Repeated :
      (context context' : Message) (content : Bytes) (m : VerdictCache) (t t' : T)
      → exceeds_budget (length content) client.max_bytes ≡ false
      → Repeated context' content t' (asked codec ask client context content (some m) t)
  unfolding Repeated stored
  asked-Repeated context context' content m t t' within v h final =
      rw (h, final)
        (scan_hit context' content (some (insert m (content_digest codec content) v)) t' v within
          (get-insert_self m (content_digest codec content) v))

  -- Once a scan with a cache has given a final verdict, a scan of the same content gives it again and
  -- asks the service nothing, whatever its context.
  pub scan_again :
      (context context' : Message) (content : Bytes) (m : VerdictCache) (t t' : T)
      (verdict : Message)
      → (scan codec ask client context content (some m) t).verdict ≡ some verdict
      → is_continue verdict ≡ false
      → scan codec ask client context' content
          (scan codec ask client context content (some m) t).cache
          t'
        ≡ unasked codec ask client verdict
            (scan codec ask client context content (some m) t).cache
            t'
  unfolding Repeated
  scan_again context context' content m t t' =
      elim (Bool-cases (exceeds_budget (length content) client.max_bytes)) [
        | inl over ↦
            subst (Repeated context' content t') (sym (scan_over context content (some m) t over)) (
              unasked-Repeated context' content m t t' _
                (scan_over context' content (some m) t' over))
        | inr within ↦ elim (Option-cases (get m (content_digest codec content))) [
          | inl unseen ↦
              subst (Repeated context' content t')
                (sym (scan_miss context content (some m) t within unseen))
                (asked-Repeated context context' content m t t' within)
          | inr (hit, seen) ↦
              subst (Repeated context' content t')
                (sym (scan_hit context content (some m) t hit within seen))
                (unasked-Repeated context' content m t t' hit
                  (scan_hit context' content (some m) t' hit within seen))
        ]
      ]
