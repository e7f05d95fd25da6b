-- ===== src/Prelude/Ensured.antt =====
-- What a result ensures where it is no error, with one rule for each way to build a result.
use mathlib.Core.Path.{◌≡◌, refl, subst, subst₂, ap}
use mathlib.Core.Bool.{Bool, true, false}
use mathlib.Core.Option.{Option, none, some}
use agent_veil.Prelude.Outcome.{
  Result, ok, err, ◌>>=◌, ◌>>◌, refuse_if, Run, and_then, map_err, ok_or,
}
use agent_veil.Prelude.Tests.{if◌then◌else◌}

pub record Ensures {E A : Type 0} (P : A → Type 0) (r : Result E A) : Type 0 where
  pub at : (a : A) → r ≡ ok a → P a

module _ {E A : Type 0} {P : A → Type 0} where
  pub Ensures-ok : (a : A) → P a → Ensures {E = E} P (ok a)
  Ensures-ok a h = record { at = λ b e. subst P (cc e) h }

  pub Ensures-err : (e : E) → Ensures P (err e)
  Ensures-err e = record { at = λ b f. absurd (cc f) }

  pub Ensures-if :
      (t : Bool) (r q : Result E A)
      → (t ≡ true → Ensures P r)
      → (t ≡ false → Ensures P q)
      → Ensures P (if t then r else q)
  Ensures-if true r q h k = h refl
  Ensures-if false r q h k = k refl

  pub Ensures-refuse_if :
      (t : Bool) (e : E) (rest : Result E A)
      → (t ≡ false → Ensures P rest)
      → Ensures P (refuse_if t e >> rest)
  Ensures-refuse_if true e rest h = Ensures-err e
  Ensures-refuse_if false e rest h = h refl

module _ {E A B : Type 0} {P : A → Type 0} {Q : B → Type 0} where
  pub Ensures-bind :
      (r : Result E A) (rest : A → Result E B)
      → Ensures P r
      → ((a : A) → P a → Ensures Q (rest a))
      → Ensures Q (r >>= rest)
  Ensures-bind (ok a) rest h k = k a (h.at a refl)
  Ensures-bind (err e) rest h k = Ensures-err e

pub ruleset ensures_rules = (Ensures-ok, Ensures-err, Ensures-if, Ensures-refuse_if, Ensures-bind)

-- The same for a result beside a state.
pub record Yields {E S A : Type 0} (P : A → S → Type 0) (r : Run E S A) : Type 0 where
  pub at : (a : A) (s : S) → r ≡ (ok a, s) → P a s

module _ {E S A : Type 0} where
  -- Nothing is known of the step but that it returned.
  pub Yields-itself : (r : Run E S A) → Yields (λ a s. r ≡ (ok a, s)) r
  Yields-itself r = record { at = λ a s e. e }

module _ {E S A : Type 0} {P : A → S → Type 0} where
  pub Yields-ok : (a : A) (s : S) → P a s → Yields {E = E} P (ok a, s)
  Yields-ok a s h = record {
    at = λ b t e. let f : a ≡ b = cc e in let g : s ≡ t = cc e in subst₂ P f g h;
  }

  pub Yields-err : (e : E) (s : S) → Yields P (err e, s)
  Yields-err e s = record { at = λ b t f. absurd (cc (ap (λ r. r.0) f)) }

module _ {E S A B : Type 0} {P : A → S → Type 0} {Q : B → S → Type 0} where
  pub Yields-bind :
      (r : Run E S A) (rest : A → S → Run E S B)
      → Yields P r
      → ((a : A) (s : S) → P a s → Yields Q (rest a s))
      → Yields Q (and_then r rest)
  Yields-bind (ok a, s) rest h k = k a s (h.at a s refl)
  Yields-bind (err e, s) rest h k = Yields-err e s

module _ {E S A : Type 0} {P Q : A → S → Type 0} where
  pub Yields-imp : (r : Run E S A) → Yields P r → ((a : A) (s : S) → P a s → Q a s) → Yields Q r
  Yields-imp r h k = record { at = λ a s e. k a s (h.at a s e) }

module _ {E A : Type 0} where
  pub Ensures-itself : (r : Result E A) → Ensures (λ a. r ≡ ok a) r
  Ensures-itself r = record { at = λ a e. e }

  pub Ensures-map_err :
      {F : Type 0} (f : F → E) (r : Result F A) → Ensures (λ a. r ≡ ok a) (map_err f r)
  Ensures-map_err f (ok a) = Ensures-ok a refl
  Ensures-map_err f (err e) = Ensures-err (f e)

  pub Ensures-ok_or : (o : Option A) (e : E) → Ensures (λ a. o ≡ some a) (ok_or o e)
  Ensures-ok_or none e = Ensures-err e
  Ensures-ok_or (some a) e = Ensures-ok a refl
