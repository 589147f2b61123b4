-- ===== src/Tap/Masking.antt =====
-- Nothing under a sensitive key is left, and nothing else is changed.
use python_yamp.Prelude.{
  elem, string_eq, Bool, true, false, String, ◌≡◌, refl, ap, ◌∙◌, sym, subst, ◌↔◌, if◌then◌else◌,
  char_eq, nat_eq, string_eq, option_eq, pair_eq, int_eq,
}
use python_yamp.Json.{Value, null, bool, num, str, arr, obj, Items, Fields, end, field, nil, cons}
use python_yamp.Tap.{mask, sensitive_keys, is_sensitive, redact, redact_items, redact_fields}

module _ (lower : String → String) where
  -- Under every sensitive key, at any depth, stands the mask.
  unfoldable mutual
    pub Masked : Value → Type 0
    Masked null = Unit
    Masked (bool b) = Unit
    Masked (num n) = Unit
    Masked (str s) = Unit
    Masked (arr vs) = MaskedItems vs
    Masked (obj fs) = MaskedFields fs

    pub MaskedItems : Items → Type 0
    MaskedItems nil = Unit
    MaskedItems (cons v vs) = Masked v × MaskedItems vs

    pub MaskedFields : Fields → Type 0
    MaskedFields end = Unit
    MaskedFields (field k v fs) =
        ((elem (lower k) sensitive_keys ≡ true → v ≡ str mask) × Masked v) × MaskedFields fs

  shown_value :
      (k : String) (v : Value)
      → Masked v
      → (elem (lower k) sensitive_keys ≡ true
          → (if is_sensitive lower k then str mask else v) ≡ str mask)
        × Masked (if is_sensitive lower k then str mask else v)
  unfolding Masked
  shown_value k v h = ((λ e. ap (λ b. if b then str mask else v) e), go (is_sensitive lower k))
    where
      go : (b : Bool) → Masked (if b then str mask else v)
      go true = _
      go false = h

  mutual
    unfolding Masked MaskedItems MaskedFields redact redact_items redact_fields

    redact-Masked : (v : Value) → Masked (redact lower v)
    redact-Masked null = _
    redact-Masked (bool b) = _
    redact-Masked (num n) = _
    redact-Masked (str s) = _
    redact-Masked (arr vs) = redact_items-Masked vs
    redact-Masked (obj fs) = redact_fields-Masked fs

    redact_items-Masked : (vs : Items) → MaskedItems (redact_items lower vs)
    redact_items-Masked nil = _
    redact_items-Masked (cons v vs) = (redact-Masked v, redact_items-Masked vs)

    redact_fields-Masked : (fs : Fields) → MaskedFields (redact_fields lower fs)
    redact_fields-Masked end = _
    redact_fields-Masked (field k v fs) =
        (shown_value k (redact lower v) (redact-Masked v), redact_fields-Masked fs)

  kept_value :
      (k : String) (v w : Value)
      → (elem (lower k) sensitive_keys ≡ true → v ≡ str mask)
      → w ≡ v
      → (if is_sensitive lower k then str mask else w) ≡ v
  kept_value k v w h e = go (is_sensitive lower k) h
    where
      go : (b : Bool) → (b ≡ true → v ≡ str mask) → (if b then str mask else w) ≡ v
      go true h = sym (h refl)
      go false h = e

  mutual
    unfolding Masked MaskedItems MaskedFields redact redact_items redact_fields

    redact_same : (v : Value) → Masked v → redact lower v ≡ v
    redact_same null h = refl
    redact_same (bool b) h = refl
    redact_same (num n) h = refl
    redact_same (str s) h = refl
    redact_same (arr vs) h = ap arr (redact_items_same vs h)
    redact_same (obj fs) h = ap obj (redact_fields_same fs h)

    redact_items_same : (vs : Items) → MaskedItems vs → redact_items lower vs ≡ vs
    redact_items_same nil h = refl
    redact_items_same (cons v vs) h =
        ap (λ x. cons x (redact_items lower vs)) (redact_same v h.0)
        ∙ ap (cons v) (redact_items_same vs h.1)

    redact_fields_same : (fs : Fields) → MaskedFields fs → redact_fields lower fs ≡ fs
    redact_fields_same end h = refl
    redact_fields_same (field k v fs) h =
        ap (λ x. field k x (redact_fields lower fs))
          (kept_value k v (redact lower v) h.0.0 (redact_same v h.0.1))
        ∙ ap (field k v) (redact_fields_same fs h.1)

  -- A redacted message has the mask under every sensitive key at any depth, and the messages that
  -- redaction leaves as they are, are exactly those that have it already.
  pub redact_lem : (v : Value) → Masked (redact lower v) × (Masked v ↔ (redact lower v ≡ v))
  redact_lem v = (redact-Masked v, (redact_same v, λ e. subst Masked e (redact-Masked v)))
