-- ===== src/Base/Effects.antt =====
-- Asynchronous handlers as state passing with exceptions. What a handler has written before it
-- throws stays written, so the state is part of a failed result too.
use Prim.Native.Nat.{ℕ}
use mathlib.Core.Path.{◌≡◌, refl}
use mathlib.Core.Logic.{◌⊎◌, inl, inr}

-- The errors that the handlers throw or receive; `other` is any that is no HTTP error.
pub data Error : Type 0 where
  bad_request unauthorized not_found unavailable unsupported_media too_many_requests : Error
  other : ℕ → Error

pub data Result {ℓ} (A : Type ℓ) : Type ℓ where
  ok : A → Result A
  err : Error → Result A

pub Result-cases {ℓ} :
    {A : Type ℓ} (r : Result A) → ((a : A) × (r ≡ ok a)) ⊎ ((e : Error) × (r ≡ err e))
Result-cases (ok a) = inl (a, refl)
Result-cases (err e) = inr (e, refl)

abbrev pub Eff : Type 0 → Type 0 → Type 0
Eff S A = S → Result A × S

module _ {S A B : Type 0} where
  abbrev pub continue : Result A × S → (A → Eff S B) → Result B × S
  continue (ok a, s) f = f a s
  continue (err e, s) f = (err e, s)

infixl 5 ◌>>=◌ ◌>>◌
abbrev pub ◌>>=◌ : {S A B : Type 0} → Eff S A → (A → Eff S B) → Eff S B
◌>>=◌ m f s = continue (m s) f

abbrev pub ◌>>◌ : {S A B : Type 0} → Eff S A → Eff S B → Eff S B
◌>>◌ m k s = continue (m s) (λ _. k)

module _ {S A : Type 0} where
  abbrev pub pure : A → Eff S A
  pure a s = (ok a, s)

  abbrev pub throw : Error → Eff S A
  throw e s = (err e, s)

  abbrev pub rescue : Result A × S → (Error → Eff S A) → Result A × S
  rescue (ok a, s) h = (ok a, s)
  rescue (err e, s) h = h e s

  -- `try { m } catch (e) { h e }`
  abbrev pub catch : Eff S A → (Error → Eff S A) → Eff S A
  catch m h s = rescue (m s) h

-- `void m()`: the result of a call that nobody awaits is dropped.
abbrev pub detach : {S A : Type 0} → Eff S A → Eff S (Unit {0})
detach m s = (ok tt, (m s).1)
