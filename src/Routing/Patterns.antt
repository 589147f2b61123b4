-- ===== src/Routing/Patterns.antt =====
-- What the patterns and the keywords select.
use Prim.Native.Char.{Char}
use Prim.Native.String.{◌++◌ as append}
use python_yamp.Prelude.{
  String, ◌≡◌, refl, sym, ap, ◌∙◌, subst, ◌≢◌, ◌↔◌, inl, inr, true, false, List, [], ◌∷◌, arith,
  eq_iff, eq_refl, Bool-cases, any, ◌==◌, elem, char_beq_iff, char_eq, nat_eq, string_eq, option_eq,
  pair_eq, int_eq,
}
use python_yamp.Prelude.Text.{strip_prefix, starts_with}
use text.Mathlib.TextLemmas.{cons-append}
use python_yamp.Routing.{ends_with, without_last, glob, backend_selected}

ends_with-star : (s : String) → ends_with (append s "*") "*" ≡ true
ends_with-star String.[] = refl
ends_with-star (String.◌∷◌ c s) = rw cons-append (ground (arith, ends_with-star s))

without_last-star : (s : String) → without_last (append s "*") ≡ s
without_last-star String.[] = refl
without_last-star (String.◌∷◌ c String.[]) = rw cons-append refl
without_last-star (String.◌∷◌ c (String.◌∷◌ d s)) =
    rw (cons-append, cons-append)
      (ap (String.◌∷◌ c)
        (ap without_last (sym (cons-append d s "*")) ∙ without_last-star (String.◌∷◌ d s)))

abbrev pub star : Char
star = "*"

long_pattern :
    (c : Char) (p : String) → (c == star) ≡ false → (append (String.◌∷◌ c p) "*" == "*") ≡ false
long_pattern c p h = elim (Bool-cases (append (String.◌∷◌ c p) "*" == "*")) [
  | inl same ↦ absurd (
      other_head c (append p "*") h
        (sym (cons-append c p "*") ∙ (eq_iff (append (String.◌∷◌ c p) "*") "*").0 same))
  | inr other ↦ other
]
  where
    other_head : (c : Char) (s : String) → (c == star) ≡ false → String.◌∷◌ c s ≢ "*"
    other_head c s h e = differ (cons_head c star s "" e)
      where
        cons_head : (c d : Char) (s t : String) → String.◌∷◌ c s ≡ String.◌∷◌ d t → c ≡ d
        cons_head c d s t e = ground arith

        differ : c ≢ star
        differ e = ground (arith, (char_beq_iff c star).1 e)

starts_with-star :
    (c : Char) (p : String)
    → (c == star) ≡ false
    → starts_with (append (String.◌∷◌ c p) "*") "*" ≡ false
unfolding strip_prefix
starts_with-star c p h = rw (cons-append, h) refl

-- A pattern that ends in a star, and does not start with one, matches exactly the names that start
-- with what stands in front of the star.
pub glob_prefix :
    (c : Char) (p name : String)
    → (c == star) ≡ false
    → glob (append (String.◌∷◌ c p) "*") name ≡ starts_with name (String.◌∷◌ c p)
unfolding glob
glob_prefix c p name h =
    rw
      (
        long_pattern c p h,
        starts_with-star c p h,
        ends_with-star (String.◌∷◌ c p),
        without_last-star (String.◌∷◌ c p),
      )
      refl

none_shared :
    (fs ks : List String)
    → any (λ w. elem w fs) ks ≡ false
    → (w : String) → elem w ks ≡ true
    → elem w fs ≡ false
none_shared fs [] h w e = absurd (ground arith)
none_shared fs (k ∷ ks) h w e = elim (Bool-cases (k == w)) [
  | inl same ↦ subst (λ x. elem x fs ≡ false) ((eq_iff k w).0 same) (ground arith)
  | inr other ↦ none_shared fs ks (ground arith) w (ground arith)
]

shares_none :
    (fs ks : List String)
    → ((w : String) → elem w ks ≡ true → elem w fs ≡ false)
    → any (λ w. elem w fs) ks ≡ false
shares_none fs [] h = refl
shares_none fs (k ∷ ks) h =
    rw (h k (ground (arith, eq_refl k))) (shares_none fs ks (λ w e. h w (ground arith)))

-- A backend is left out exactly where it declares keywords, the filter has some, and no word is among
-- both.
pub backend_selected_iff :
    (ks fs : List String)
    → (backend_selected ks fs ≡ false)
      ↔ ((ks ≢ []) × (fs ≢ []) × ((w : String) → elem w ks ≡ true → elem w fs ≡ false))
unfolding backend_selected
backend_selected_iff [] fs = (λ h. absurd (ground arith), λ (n, m, a). absurd (n refl))
backend_selected_iff (k ∷ ks) [] = (λ h. absurd (ground arith), λ (n, m, a). absurd (m refl))
backend_selected_iff (k ∷ ks) (f ∷ fs) = (
  λ h. ((λ e. ground arith), (λ e. ground arith), none_shared (f ∷ fs) (k ∷ ks) h),
  λ (n, m, a). shares_none (f ∷ fs) (k ∷ ks) a,
)
