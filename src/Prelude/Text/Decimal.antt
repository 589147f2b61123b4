-- ===== src/Prelude/Text/Decimal.antt =====
-- Python's `str` of a number that is not negative: its decimal digits.
use Prim.Native.Nat.{ℕ, zero, suc, ◌+◌, ◌-◌, ◌*◌, ◌/◌, ◌%◌, ◌<◌}
use Prim.Native.Char.{code}
use Prim.Native.String.{String, [], ◌∷◌, ◌++◌}
use mathlib.Core.Path.{◌≡◌, refl, sym, ap, ◌∙◌}
use mathlib.Core.Bool.{Bool, true, ◌&&◌, not}
use native.Mathlib.Omega.{arith}
use text.Mathlib.TextLemmas.{nil-append, cons-append}
use python_yamp.Prelude.Tests.{if◌then◌else◌, ltb, nat_beq, Bool-cases}
use mathlib.Core.Logic.{inl, inr}

abbrev pub digit : ℕ → String
digit zero = "0"
digit (suc zero) = "1"
digit (suc (suc zero)) = "2"
digit (suc (suc (suc zero))) = "3"
digit (suc (suc (suc (suc zero)))) = "4"
digit (suc (suc (suc (suc (suc zero))))) = "5"
digit (suc (suc (suc (suc (suc (suc zero)))))) = "6"
digit (suc (suc (suc (suc (suc (suc (suc zero))))))) = "7"
digit (suc (suc (suc (suc (suc (suc (suc (suc zero)))))))) = "8"
digit (suc (suc (suc (suc (suc (suc (suc (suc (suc n))))))))) = "9"

-- The fuel is larger than the number.
unfoldable pub show_with : ℕ → ℕ → String
show_with zero n = ""
show_with (suc fuel) n =
    let rest = show_with fuel (n / 10) in if ltb n 10 then digit n else rest ++ digit (n % 10)

-- str(n)
unfoldable pub show_ℕ : ℕ → String
unfolding show_with
show_ℕ n = show_with (suc n) n

-- The number that digits stand for, behind those that are read.
value : ℕ → String → ℕ
value acc [] = acc
value acc (c ∷ s) = value (acc * 10 + (code c - 48)) s

value-append : (acc : ℕ) (s t : String) → value acc (s ++ t) ≡ value (value acc s) t
unfolding value
value-append acc [] t = rw nil-append
value-append acc (c ∷ s) t = rw cons-append (value-append (acc * 10 + (code c - 48)) s t)

value-digit : (acc d : ℕ) → d < 10 → value acc (digit d) ≡ acc * 10 + d
unfolding value
value-digit acc zero h = refl
value-digit acc (suc zero) h = refl
value-digit acc (suc (suc zero)) h = refl
value-digit acc (suc (suc (suc zero))) h = refl
value-digit acc (suc (suc (suc (suc zero)))) h = refl
value-digit acc (suc (suc (suc (suc (suc zero))))) h = refl
value-digit acc (suc (suc (suc (suc (suc (suc zero)))))) h = refl
value-digit acc (suc (suc (suc (suc (suc (suc (suc zero))))))) h = refl
value-digit acc (suc (suc (suc (suc (suc (suc (suc (suc zero)))))))) h = refl
value-digit acc (suc (suc (suc (suc (suc (suc (suc (suc (suc zero))))))))) h = refl
value-digit acc (suc (suc (suc (suc (suc (suc (suc (suc (suc (suc n)))))))))) h =
    absurd (omega arith)

value-show_with : (fuel n : ℕ) → n < fuel → value 0 (show_with fuel n) ≡ n
unfolding show_with
value-show_with zero n h = elim h [ ]
value-show_with (suc fuel) n h = elim (Bool-cases (ltb n 10)) [
  | inl small ↦ rw small (value-digit 0 n (ground arith) ∙ omega arith)
  | inr large ↦ rw large (
      value-append 0 (show_with fuel (n / 10)) (digit (n % 10))
      ∙ (value-digit _ (n % 10) (omega arith)
          ∙ omega (arith, value-show_with fuel (n / 10) (ground arith))))
]

-- Different numbers have different decimals.
pub show_ℕ-injective : (m n : ℕ) → show_ℕ m ≡ show_ℕ n → m ≡ n
unfolding show_ℕ
show_ℕ-injective m n h =
    sym (value-show_with (suc m) m (omega arith))
    ∙ (ap (value 0) h ∙ value-show_with (suc n) n (omega arith))

-- No character of the text is an underscore.
unfoldable pub lacks_low : String → Bool
lacks_low [] = true
lacks_low (c ∷ s) = not (nat_beq (code c) b'_') && lacks_low s

pub lacks_low-append :
    (s t : String) → lacks_low s ≡ true → lacks_low t ≡ true → lacks_low (s ++ t) ≡ true
unfolding lacks_low
lacks_low-append [] t h k = rw nil-append k
lacks_low-append (c ∷ s) t h k = rw cons-append (ground (arith, lacks_low-append s t))

lacks_low-digit : (d : ℕ) → lacks_low (digit d) ≡ true
unfolding lacks_low
lacks_low-digit zero = refl
lacks_low-digit (suc zero) = refl
lacks_low-digit (suc (suc zero)) = refl
lacks_low-digit (suc (suc (suc zero))) = refl
lacks_low-digit (suc (suc (suc (suc zero)))) = refl
lacks_low-digit (suc (suc (suc (suc (suc zero))))) = refl
lacks_low-digit (suc (suc (suc (suc (suc (suc zero)))))) = refl
lacks_low-digit (suc (suc (suc (suc (suc (suc (suc zero))))))) = refl
lacks_low-digit (suc (suc (suc (suc (suc (suc (suc (suc zero)))))))) = refl
lacks_low-digit (suc (suc (suc (suc (suc (suc (suc (suc (suc n))))))))) = refl

lacks_low-show_with : (fuel n : ℕ) → lacks_low (show_with fuel n) ≡ true
unfolding show_with
lacks_low-show_with zero n = unfold lacks_low in refl
lacks_low-show_with (suc fuel) n = ground (
  arith,
  lacks_low-digit n,
  lacks_low-append (show_with fuel (n / 10)) (digit (n % 10)),
  lacks_low-digit (n % 10),
  lacks_low-show_with fuel (n / 10),
)

pub lacks_low-show_ℕ : (n : ℕ) → lacks_low (show_ℕ n) ≡ true
unfolding show_ℕ
lacks_low-show_ℕ n = lacks_low-show_with (suc n) n
