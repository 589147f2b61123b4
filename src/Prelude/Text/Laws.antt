-- ===== src/Prelude/Text/Laws.antt =====
-- Laws of the operations on texts.
use Prim.Native.Nat.{◌≤◌}
use Prim.Native.Char.{Char}
use Prim.Native.String.{String, [], ◌∷◌, ◌++◌, count}
use mathlib.Core.Path.{◌≡◌, refl, sym, ap, ◌∙◌}
use mathlib.Core.Logic.{inl, inr}
use mathlib.Core.Bool.{false}
use mathlib.Core.Option.{Option, none, some}
use native.Mathlib.Omega.{arith}
use text.Mathlib.TextLemmas.{
  nil-append, cons-append, append_assoc, length-nil, length-cons, length-append,
}
use python_yamp.Prelude.Tests.{Option-cases, Bool-cases}
use python_yamp.Prelude.Classes.{◌==◌, char_eq, char_beq_iff, beq_refl}
use python_yamp.Prelude.Text.Defs.{strip_prefix, cons_first, partition, contains}

-- What is stripped of a prefix and put behind it again is the text.
pub strip_prefix_sound : (p s r : String) → strip_prefix p s ≡ some r → s ≡ p ++ r
unfolding strip_prefix
strip_prefix_sound [] s r h = cc (nil-append r, h)
strip_prefix_sound (d ∷ p) [] r h = cc
strip_prefix_sound (d ∷ p) (c ∷ s) r h =
    rw cons-append (ground (arith, char_beq_iff c d, strip_prefix_sound p s r))

pub strip_prefix-append : (p s : String) → strip_prefix p (p ++ s) ≡ some s
unfolding strip_prefix
strip_prefix-append [] s = rw nil-append
strip_prefix-append (d ∷ p) s = rw cons-append (rw (beq_refl d) (strip_prefix-append p s))

-- A prefix that does not fit in the first `count p` characters does not fit whatever follows them.
pub strip_prefix-eq-none :
    (p u v w : String)
    → count p ≤ count u
    → strip_prefix p (u ++ v) ≡ none
    → strip_prefix p (u ++ w) ≡ none
unfolding strip_prefix
strip_prefix-eq-none [] u v w l h = cc
strip_prefix-eq-none (d ∷ p) [] v w l h = absurd (omega (arith, length-cons d p, length-nil))
strip_prefix-eq-none (d ∷ p) (c ∷ u) v w l h = rw cons-append (elim (Bool-cases (c == d)) [
  | inl same ↦ rw same (
      strip_prefix-eq-none p u v w (omega (arith, length-cons d p, length-cons c u))
        (rw (cons-append c u v, same) at h))
  | inr other ↦ rw other
])

pub partition_miss :
    (p : String) (c : Char) (s : String)
    → strip_prefix p (c ∷ s) ≡ none
    → partition p (c ∷ s) ≡ cons_first c (partition p s)
unfolding partition
partition_miss p c s h = rw (h, partition)

partition_hit :
    (p : String) (c : Char) (s r : String)
    → strip_prefix p (c ∷ s) ≡ some r
    → partition p (c ∷ s) ≡ some ([], r)
unfolding partition
partition_hit p c s r h = rw (h, partition)

cons_first-eq-some :
    (c : Char) (o : Option (String × String)) (a b : String)
    → cons_first c o ≡ some (a, b)
    → (a' : String) × (a ≡ c ∷ a') × (o ≡ some (a', b))
cons_first-eq-some c none a b h = cc
cons_first-eq-some c (some (a', b')) a b h = (a', ground arith, ground arith)

-- A cut of `c ∷ s` is made at once, or it is a cut of `s`.
data Cut (p : String) (c : Char) (s a b : String) : Type 0 where
  at_once : a ≡ [] → strip_prefix p (c ∷ s) ≡ some b → Cut p c s a b
  later :
      (a' : String)
      → strip_prefix p (c ∷ s) ≡ none
      → a ≡ c ∷ a'
      → partition p s ≡ some (a', b)
      → Cut p c s a b

Cut-cases :
    (p : String) (c : Char) (s a b : String) → partition p (c ∷ s) ≡ some (a, b) → Cut p c s a b
Cut-cases p c s a b h = elim (Option-cases (strip_prefix p (c ∷ s))) [
  | inl missed ↦
      let (a', first, rest) =
        cons_first-eq-some c (partition p s) a b (sym (partition_miss p c s missed) ∙ h) in
      later a' missed first rest
  | inr (r, hit) ↦
      at_once (ground (arith, partition_hit p c s r hit))
        (ground (arith, partition_hit p c s r hit))
]

-- The two parts and the separator make the text.
pub partition_sound : (p s a b : String) → partition p s ≡ some (a, b) → s ≡ a ++ (p ++ b)
unfolding partition
partition_sound p [] a b h = cc
partition_sound p (c ∷ s) a b h = elim (Cut-cases p c s a b h) [
  | at_once first hit ↦ rw first (rw nil-append (strip_prefix_sound p (c ∷ s) b hit))
  | later a' missed first rest ↦
      rw first (rw cons-append (ap (◌∷◌ c) (partition_sound p s a' b rest)))
]

-- A text that begins with the separator is cut at once.
pub partition-append : (d : Char) (p w : String) → partition (d ∷ p) ((d ∷ p) ++ w) ≡ some ([], w)
partition-append d p w =
    rw cons-append
      (partition_hit (d ∷ p) d (p ++ w) w (rw (← cons-append) (strip_prefix-append (d ∷ p) w)))

regroup : (c : Char) (a p w : String) → c ∷ (a ++ (p ++ w)) ≡ ((c ∷ a) ++ p) ++ w
regroup c a p w = sym (append_assoc (c ∷ a) p w ∙ cons-append c a (p ++ w))

missed_replace :
    (p : String) (c : Char) (s a b w : String)
    → strip_prefix p (c ∷ s) ≡ none
    → partition p s ≡ some (a, b)
    → strip_prefix p (c ∷ (a ++ (p ++ w))) ≡ none
missed_replace p c s a b w missed cut = rw (regroup c a p w) (
    strip_prefix-eq-none p ((c ∷ a) ++ p) b w (omega (arith, length-append (c ∷ a) p))
      (rw (← regroup c a p b) (rw (← partition_sound p s a b cut) missed)))

-- What follows the first occurrence of the separator does not matter to where it is found.
pub partition_replace :
    (d : Char) (p s a b w : String)
    → partition (d ∷ p) s ≡ some (a, b)
    → partition (d ∷ p) (a ++ ((d ∷ p) ++ w)) ≡ some (a, w)
unfolding partition
partition_replace d p [] a b w h = cc
partition_replace d p (c ∷ s) a b w h = elim (Cut-cases (d ∷ p) c s a b h) [
  | at_once first hit ↦ rw first (rw nil-append (partition-append d p w))
  | later a' missed first rest ↦ rw first (
      rw (cons-append c a' ((d ∷ p) ++ w)) (
        partition_miss (d ∷ p) c _ (missed_replace (d ∷ p) c s a' b w missed rest)
        ∙ ap (cons_first c) (partition_replace d p s a' b w rest)))
]

-- Without an occurrence there is no cut.
pub partition-eq-none : (p s : String) → contains p s ≡ false → partition p s ≡ none
unfolding partition contains
partition-eq-none p [] h = refl
partition-eq-none p (c ∷ s) h = ground (arith, partition-eq-none p s)
