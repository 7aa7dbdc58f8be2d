-- ===== src/Base/Regex/Laws.antt =====
-- Searches for single characters, by the characters of the text.
use Prim.Native.Char.{code}
use Prim.Native.Nat.{ℕ}
use Prim.Native.String.{String, [], ◌∷◌}
use mathlib.Core.Path.{◌≡◌, refl}
use mathlib.Core.Logic.{inl, inr}
use mathlib.Core.Bool.{Bool, true, false, ◌||◌}
use native.Mathlib.Omega.{arith}
use open_balena_api.Base.Tests.{Bool-cases, is_some}
use open_balena_api.Base.Regex.{
  class, seq, alt, at_start, step_class, match_then, search_from, exec, test,
}

-- Whether some character, or the first, is of a class.
abbrev pub any_is : (ℕ → Bool) → String → Bool
any_is q [] = false
any_is q (c ∷ s) = q (code c) || any_is q s

abbrev pub first_is : (ℕ → Bool) → String → Bool
first_is p [] = false
first_is p (c ∷ s) = p (code c)

search-class :
    (q : ℕ → Bool) (b : Bool) (s : String) → is_some (search_from (class q) b s) ≡ any_is q s
unfolding search_from match_then step_class
search-class q b [] = refl
search-class q b (c ∷ s) = elim (Bool-cases (q (code c))) [
  | inl e ↦ ground arith
  | inr e ↦ ground (arith, search-class q false s)
]

pub test-class : (q : ℕ → Bool) (s : String) → test (class q) s ≡ any_is q s
unfolding test exec
test-class q s = search-class q true s

-- One of two classes.
search-classes :
    (p q : ℕ → Bool) (b : Bool) (s : String)
    → is_some (search_from (alt (class p) (class q)) b s) ≡ any_is (λ c. p c || q c) s
unfolding search_from match_then step_class
search-classes p q b [] = refl
search-classes p q b (c ∷ s) = elim (Bool-cases (p (code c))) [
  | inl e ↦ ground arith
  | inr e ↦ elim (Bool-cases (q (code c))) [
    | inl f ↦ ground arith
    | inr f ↦ ground (arith, search-classes p q false s)
  ]
]

pub test-classes :
    (p q : ℕ → Bool) (s : String) → test (alt (class p) (class q)) s ≡ any_is (λ c. p c || q c) s
unfolding test exec
test-classes p q s = search-classes p q true s

search-later :
    (p q : ℕ → Bool) (s : String)
    → is_some (search_from (alt (seq at_start (class p)) (class q)) false s) ≡ any_is q s
unfolding search_from match_then step_class
search-later p q [] = refl
search-later p q (c ∷ s) = elim (Bool-cases (q (code c))) [
  | inl e ↦ ground arith
  | inr e ↦ ground (arith, search-later p q s)
]

-- A class at the start, or one anywhere.
pub test-start_or_any :
    (p q : ℕ → Bool) (s : String)
    → test (alt (seq at_start (class p)) (class q)) s ≡ (first_is p s || any_is q s)
unfolding test exec search_from match_then step_class
test-start_or_any p q [] = refl
test-start_or_any p q (c ∷ s) = elim (Bool-cases (p (code c))) [
  | inl e ↦ ground arith
  | inr e ↦ elim (Bool-cases (q (code c))) [
    | inl f ↦ ground arith
    | inr f ↦ ground (arith, search-later p q s)
  ]
]
