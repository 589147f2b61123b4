-- ===== src/Signing/Evidence.antt =====
-- What a log that verifies is evidence of.
use Prim.Native.Char.{Char}
use Prim.Native.String.{◌++◌ as append}
use text.Mathlib.TextLemmas.{nil-append, cons-append}
use python_yamp.Prelude.{
  ℕ, suc, String, ◌≡◌, refl, sym, ap, ◌∙◌, subst, ◌≢◌, ◌↔◌, ◌⊎◌, inl, inr, true, false, List, [],
  ◌∷◌, map, arith, eq_iff, eq_refl, Bool-cases, length, ◌==◌, nat_eq, string_eq, option_eq, pair_eq,
  int_eq,
}
use python_yamp.Json.{Message}
use python_yamp.Signing.{
  Entry, AuditLog, sign, verify, link, chain, entry_after, intact, verify_log,
}

abbrev pub text_length : String → ℕ
text_length String.[] = 0
text_length (String.◌∷◌ c s) = suc (text_length s)

append_cancel :
    (a b s t : String) → text_length a ≡ text_length b → append a s ≡ append b t → (a ≡ b) × (s ≡ t)
append_cancel String.[] String.[] s t l h = (refl, sym (nil-append s) ∙ h ∙ nil-append t)
append_cancel String.[] (String.◌∷◌ d b) s t l h = absurd (omega arith)
append_cancel (String.◌∷◌ c a) String.[] s t l h = absurd (omega arith)
append_cancel (String.◌∷◌ c a) (String.◌∷◌ d b) s t l h =
    let (head, tail) =
      cons_injective c d (append a s) (append b t)
        (sym (cons-append c a s) ∙ h ∙ cons-append d b t) in
    let (e, f) = append_cancel a b s t (omega arith) tail in (rw (head, e) refl, f)
  where
    cons_injective :
        (c d : Char) (s t : String) → String.◌∷◌ c s ≡ String.◌∷◌ d t → (c ≡ d) × (s ≡ t)
    cons_injective c d s t h = ground arith

module _ (canonical : Message → String) (sha256 : String → String)
    (hmac : String → String → String) where
  -- the entries that appending the bodies one after the other writes
  unfoldable pub replay : String → String → List Message → List Entry
  replay secret head [] = []
  replay secret head (body ∷ bodies) =
      entry_after canonical sha256 hmac secret head body
      ∷ replay secret (chain canonical sha256 hmac head body) bodies

  entry_eq :
      (secret head : String) (e : Entry)
      → sign canonical sha256 hmac secret e.body ≡ e.signature
      → e.prev ≡ head
      → chain canonical sha256 hmac head e.body ≡ e.hash
      → e ≡ entry_after canonical sha256 hmac secret head e.body
  entry_eq secret head e s p h = rw (s, p, h) refl

  intact_cons :
      (secret head : String) (e : Entry) (es : List Entry)
      → intact canonical sha256 hmac secret head (e ∷ es) ≡ true
      → (sign canonical sha256 hmac secret e.body ≡ e.signature)
        × (e.prev ≡ head)
        × (chain canonical sha256 hmac head e.body ≡ e.hash)
        × (intact canonical sha256 hmac secret e.hash es ≡ true)
  unfolding intact verify
  intact_cons secret head e es h = ground (
    arith,
    eq_iff (sign canonical sha256 hmac secret e.body) e.signature,
    eq_iff e.prev head,
    eq_iff (chain canonical sha256 hmac head e.body) e.hash,
  )

  intact_sound :
      (secret head : String) (es : List Entry)
      → intact canonical sha256 hmac secret head es ≡ true
      → es ≡ replay secret head (map (λ e. e.body) es)
  unfolding replay
  intact_sound secret head [] h = refl
  intact_sound secret head (e ∷ es) h =
      let (s, p, c, later) = intact_cons secret head e es h in
      ap (λ x. x ∷ es) (entry_eq secret head e s p c)
      ∙ ap (λ xs. entry_after canonical sha256 hmac secret head e.body ∷ xs)
          (intact_sound secret e.hash es later
            ∙ ap (λ x. replay secret x (map (λ e. e.body) es)) (sym c))

  intact-replay :
      (secret head : String) (bodies : List Message)
      → intact canonical sha256 hmac secret head (replay secret head bodies) ≡ true
  unfolding replay intact verify
  intact-replay secret head [] = refl
  intact-replay secret head (body ∷ bodies) =
      rw
        (
          eq_refl (sign canonical sha256 hmac secret body),
          eq_refl head,
          eq_refl (chain canonical sha256 hmac head body),
        )
        (intact-replay secret (chain canonical sha256 hmac head body) bodies)

  -- A log verifies exactly when its entries are those that appending their bodies, one after the
  -- other from the log's origin, writes.
  pub verify_log_iff :
      (log : AuditLog)
      → (verify_log canonical sha256 hmac log ≡ true)
        ↔ (log.records ≡ replay log.secret log.origin (map (λ e. e.body) log.records))
  unfolding verify_log
  verify_log_iff log = (
    intact_sound log.secret log.origin log.records,
    λ e.
        subst (λ es. intact canonical sha256 hmac log.secret log.origin es ≡ true) (sym e)
          (intact-replay log.secret log.origin (map (λ e. e.body) log.records)),
  )

  -- the text whose digest is an entry's link: the link before it, and the entry's record
  abbrev pub linked : Entry → String
  linked e = append e.prev (append "|" (canonical e.body))

  -- At one place of the two logs stand entries whose linked texts differ and have one digest.
  unfoldable pub Clash : List Entry → List Entry → Type 0
  Clash [] fs = ⊥
  Clash (e ∷ es) [] = ⊥
  Clash (e ∷ es) (f ∷ fs) =
      ((linked e ≢ linked f) × (sha256 (linked e) ≡ sha256 (linked f))) ⊎ Clash es fs

  abbrev pub last_hash : String → List Entry → String
  last_hash head [] = head
  last_hash head (e ∷ es) = last_hash e.hash es

  abbrev pub bytes : List Entry → List String
  bytes = map (λ e. canonical e.body)

  unequal : (a b : String) → (a == b) ≡ false → a ≢ b
  unequal a b h = ground (arith, eq_iff a b)

  texts_agree :
      (e f : Entry)
      → text_length e.prev ≡ text_length f.prev
      → sha256 (linked e) ≡ sha256 (linked f)
      → ((linked e ≢ linked f) × (sha256 (linked e) ≡ sha256 (linked f)))
        ⊎ ((e.prev ≡ f.prev) × (canonical e.body ≡ canonical f.body))
  texts_agree e f l h = elim (Bool-cases (linked e == linked f)) [
    | inl same ↦
        let (p, q) = append_cancel e.prev f.prev _ _ l ((eq_iff _ _).0 same) in
        inr (p, (append_cancel "|" "|" (canonical e.body) (canonical f.body) refl q).1)
    | inr other ↦ inl (unequal _ _ other, h)
  ]

  agree :
      (width : ℕ) (secret : String) (other_secret : String) (head other_head : String)
      (es fs : List Entry)
      → ((s : String) → text_length (sha256 s) ≡ width)
      → text_length head ≡ width
      → text_length other_head ≡ width
      → length es ≡ length fs
      → intact canonical sha256 hmac secret head es ≡ true
      → intact canonical sha256 hmac other_secret other_head fs ≡ true
      → last_hash head es ≡ last_hash other_head fs
      → Clash es fs ⊎ ((head ≡ other_head) × (bytes es ≡ bytes fs))
  unfolding chain Clash
  agree width secret other_secret head other_head [] [] w l m n i j same = inr (same, refl)
  agree width secret other_secret head other_head [] (f ∷ fs) w l m n i j same =
      absurd (omega arith)
  agree width secret other_secret head other_head (e ∷ es) [] w l m n i j same =
      absurd (omega arith)
  agree width secret other_secret head other_head (e ∷ es) (f ∷ fs) w l m n i j same =
      let (_, pe, ce, ie) = intact_cons secret head e es i in
      let (_, pf, cf, jf) = intact_cons other_secret other_head f fs j in
      first pe pf ce cf (
        agree width secret other_secret e.hash f.hash es fs w
          (ap text_length (sym ce) ∙ is_digest head e.body)
          (ap text_length (sym cf) ∙ is_digest other_head f.body) (omega arith) ie jf same)
    where
      is_digest : (h : String) (b : Message) → text_length (chain canonical sha256 hmac h b) ≡ width
      is_digest h b = w (link canonical sha256 hmac h (canonical b))

      digest_of :
          (h : String) (x : Entry)
          → x.prev ≡ h
          → chain canonical sha256 hmac h x.body ≡ x.hash
          → sha256 (linked x) ≡ x.hash
      digest_of h x p c = ap (λ y. sha256 (link canonical sha256 hmac y (canonical x.body))) p ∙ c

      first :
          e.prev ≡ head
          → f.prev ≡ other_head
          → chain canonical sha256 hmac head e.body ≡ e.hash
          → chain canonical sha256 hmac other_head f.body ≡ f.hash
          → Clash es fs ⊎ ((e.hash ≡ f.hash) × (bytes es ≡ bytes fs))
          → Clash (e ∷ es) (f ∷ fs) ⊎ ((head ≡ other_head) × (bytes (e ∷ es) ≡ bytes (f ∷ fs)))
      first pe pf ce cf (inl c) = inl (inr c)
      first pe pf ce cf (inr (h, rest)) =
          elim (texts_agree e f (ap text_length pe ∙ l ∙ sym m ∙ sym (ap text_length pf))
            (digest_of head e pe ce ∙ h ∙ sym (digest_of other_head f pf cf))) [
              | inl c ↦ inl (inl c)
              | inr (heads, bodies) ↦ inr (sym pe ∙ heads ∙ pf, rw (bodies, rest) refl)
            ]

  -- Two logs that verify, hold equally many entries and end in the same link, hold records of the
  -- same canonical bytes in the same order, or else at one place the two logs themselves link different
  -- texts that have one digest; this asks that digests and both origins have one length.
  pub tamper_evident :
      (width : ℕ) (one other : AuditLog)
      → ((s : String) → text_length (sha256 s) ≡ width)
      → text_length one.origin ≡ width
      → text_length other.origin ≡ width
      → length one.records ≡ length other.records
      → verify_log canonical sha256 hmac one ≡ true
      → verify_log canonical sha256 hmac other ≡ true
      → last_hash one.origin one.records ≡ last_hash other.origin other.records
      → Clash one.records other.records ⊎ (bytes one.records ≡ bytes other.records)
  unfolding verify_log
  tamper_evident width one other w l m n i j same =
      elim (agree width one.secret other.secret one.origin other.origin one.records other.records w
        l m n i j same) [ inl c ↦ inl c | inr (_, e) ↦ inr e ]
