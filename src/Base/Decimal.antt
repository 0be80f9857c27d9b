-- ===== src/Base/Decimal.antt =====
-- std::to_string of an unsigned number: its decimal digits as characters.
use Prim.Native.Nat.{ℕ, zero, suc, ◌+◌, ◌-◌, ◌*◌, ◌/◌, ◌%◌, ◌≤◌, ◌<◌}
use mathlib.Core.Path.{◌≡◌, refl, ap, sym, ◌∙◌}
use mathlib.Core.Logic.{inl, inr}
use mathlib.Core.Bool.{Bool, true, ◌&&◌}
use mathlib.Core.List.{List, [], ◌∷◌, ◌++◌}
use native.Mathlib.Omega.{arith}
use gaia_net.Base.Tests.{ltb, leb, if◌then◌else◌, Bool-cases}

-- With fuel for the digits; `n` rounds are more than enough.
pub digits : ℕ → ℕ → List ℕ
digits zero n = (48 + n % 10) ∷ []
digits (suc fuel) n =
    let front = digits fuel (n / 10) in
    if ltb n 10 then (48 + n) ∷ [] else front ++ (48 + n % 10) ∷ []

unfoldable pub to_string : ℕ → List ℕ
unfolding digits
to_string n = digits n n

-- The number that a digit string stands for, read from the left.
pub value_from : ℕ → List ℕ → ℕ
value_from acc [] = acc
value_from acc (c ∷ cs) = value_from (acc * 10 + (c - 48)) cs

value_from-snoc :
    (acc : ℕ) (cs : List ℕ) (c : ℕ)
    → value_from acc (cs ++ c ∷ []) ≡ value_from acc cs * 10 + (c - 48)
unfolding value_from
value_from-snoc acc [] c = refl
value_from-snoc acc (d ∷ cs) c = value_from-snoc (acc * 10 + (d - 48)) cs c

value-digits : (fuel n : ℕ) → n ≤ fuel → value_from 0 (digits fuel n) ≡ n
unfolding digits value_from
value-digits zero n h = omega arith
value-digits (suc fuel) n h =
    ground
      (arith, value-digits fuel (n / 10), value_from-snoc 0 (digits fuel (n / 10)) (48 + n % 10))

-- Reading back what was printed.
pub value-to_string : (n : ℕ) → value_from 0 (to_string n) ≡ n
unfolding to_string
value-to_string n = value-digits n n (omega arith)

pub to_string-injective : (m n : ℕ) → to_string m ≡ to_string n → m ≡ n
to_string-injective m n e = sym (value-to_string m) ∙ ap (value_from 0) e ∙ value-to_string n

abbrev pub is_digit : ℕ → Bool
is_digit c = leb 48 c && leb c 57

abbrev pub AllDigits : List ℕ → Type 0
AllDigits [] = Unit {0}
AllDigits (c ∷ cs) = (is_digit c ≡ true) × AllDigits cs

pub AllDigits-append : (xs ys : List ℕ) → AllDigits xs → AllDigits ys → AllDigits (xs ++ ys)
AllDigits-append [] ys h k = k
AllDigits-append (x ∷ xs) ys h k = (h.0, AllDigits-append xs ys h.1 k)

digits-AllDigits : (fuel n : ℕ) → AllDigits (digits fuel n)
unfolding digits
digits-AllDigits zero n = (ground arith, tt)
digits-AllDigits (suc fuel) n = elim (Bool-cases (ltb n 10)) [
  | inl small ↦ rw small (ground arith, tt)
  | inr large ↦ rw large (
      AllDigits-append (digits fuel (n / 10)) ((48 + n % 10) ∷ []) (digits-AllDigits fuel (n / 10))
        (ground arith, tt))
]

pub to_string-AllDigits : (n : ℕ) → AllDigits (to_string n)
unfolding to_string
to_string-AllDigits n = digits-AllDigits n n

digits_fuel : (u v n : ℕ) → n ≤ u → n ≤ v → digits u n ≡ digits v n
unfolding digits
digits_fuel zero zero n h k = refl
digits_fuel zero (suc v) n h k = ground arith
digits_fuel (suc u) zero n h k = ground arith
digits_fuel (suc u) (suc v) n h k =
    ground (arith, digits_fuel u v (n / 10) (omega arith) (omega arith))

pub to_string_small : (n : ℕ) → n < 10 → to_string n ≡ (48 + n) ∷ []
unfolding to_string
to_string_small zero h = refl
to_string_small (suc n) h = ground arith

-- The last digit splits off.
pub to_string-snoc :
    (a d : ℕ) → 0 < a → d < 10 → to_string (a * 10 + d) ≡ to_string a ++ (48 + d) ∷ []
unfolding to_string
to_string-snoc a d h k = unrolled (a * 10 + d) (omega arith)
  where
    unrolled : (n : ℕ) → n ≡ a * 10 + d → digits n n ≡ digits a a ++ (48 + d) ∷ []
    unrolled zero e = absurd (omega arith)
    unrolled (suc n) e =
        let front : suc n / 10 ≡ a = omega arith in
        let last : suc n % 10 ≡ d = omega arith in
        ground (arith, front, last, ap (digits n) front, digits_fuel n a a)
