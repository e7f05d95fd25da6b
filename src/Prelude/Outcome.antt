-- ===== src/Prelude/Outcome.antt =====
-- `Result<A, E>` and `?`.
use mathlib.Core.Path.{◌≡◌, refl, ap}
use mathlib.Core.Logic.{◌⊎◌, inl, inr}
use mathlib.Core.Bool.{Bool, true, false}
use mathlib.Core.Option.{Option, none, some}

pub data Result (E A : Type 0) : Type 0 where
  ok : A → Result E A
  err : E → Result E A

module _ {E B : Type 0} where
  infixl 6 ◌>>=◌ ◌>>◌
  -- `?`: an error ends the function.
  abbrev pub ◌>>=◌ : {A : Type 0} → Result E A → (A → Result E B) → Result E B
  ◌>>=◌ (err e) rest = err e
  ◌>>=◌ (ok a) rest = rest a

  abbrev pub ◌>>◌ : Result E (Unit {0}) → Result E B → Result E B
  first >> second = first >>= (λ _. second)

-- `if test { return Err(e) }`
abbrev pub refuse_if : {E : Type 0} → Bool → E → Result E (Unit {0})
refuse_if true e = err e
refuse_if false e = ok tt

-- `ok_or`
abbrev pub ok_or : {E A : Type 0} → Option A → E → Result E A
ok_or (some a) e = ok a
ok_or none e = err e

abbrev pub is_some {ℓ} : {A : Type ℓ} → Option A → Bool
is_some (some a) = true
is_some none = false

-- `unwrap_or`
abbrev pub unwrap_or {ℓ} : {A : Type ℓ} → Option A → A → A
unwrap_or (some a) d = a
unwrap_or none d = d

-- `map_err`
abbrev pub map_err : {E F A : Type 0} → (E → F) → Result E A → Result F A
map_err f (ok a) = ok a
map_err f (err e) = err (f e)

-- A block that succeeds has succeeded at its first step.
pub ok_of_bind :
    {E A B : Type 0} (first : Result E A) (rest : A → Result E B) {last : B}
    → (first >>= rest) ≡ ok last
    → (a : A) × (rest a ≡ ok last) × (first ≡ ok a)
ok_of_bind (err e) rest done = cc
ok_of_bind (ok a) rest done = (a, done, refl)

pub Result-cases :
    {E A : Type 0} (r : Result E A) → ((a : A) × (r ≡ ok a)) ⊎ ((e : E) × (r ≡ err e))
Result-cases (ok a) = inl (a, refl)
Result-cases (err e) = inr (e, refl)

-- A result beside a state that is kept also when the call fails.
abbrev pub Run : Type 0 → Type 0 → Type 0 → Type 0
Run E S A = Result E A × S

-- `?` in a method that changes a state.
abbrev pub and_then : {E S A B : Type 0} → Run E S A → (A → S → Run E S B) → Run E S B
and_then (err e, s) rest = (err e, s)
and_then (ok a, s) rest = rest a s

pub and_then-inversion :
    {E S A B : Type 0} (first : Run E S A) (rest : A → S → Run E S B) (b : B) (s' : S)
    → and_then first rest ≡ (ok b, s')
    → (a : A) × (s : S) × (first ≡ (ok a, s)) × (rest a s ≡ (ok b, s'))
and_then-inversion (err e, s) rest b s' h = absurd (cc (ap (λ r. r.0) h))
and_then-inversion (ok a, s) rest b s' h = (a, s, refl, h)

-- What a first step establishes and the rest keeps holds of the state at the end, failed or not.
pub and_then_keeps :
    {E S A B : Type 0} (P : S → Type 0) (first : Run E S A) (rest : A → S → Run E S B)
    → P first.1
    → ((a : A) (s : S) → P s → P (rest a s).1)
    → P (and_then first rest).1
and_then_keeps P (err e, s) rest h k = h
and_then_keeps P (ok a, s) rest h k = k a s h

-- What holds of the errors of both steps holds of the error of the block.
pub and_then_errors :
    {E S A B : Type 0} (P : E → Type 0) (first : Run E S A) (rest : A → S → Run E S B)
    → ((e : E) → first.0 ≡ err e → P e)
    → ((a : A) (s : S) → first ≡ (ok a, s) → (e : E) → (rest a s).0 ≡ err e → P e)
    → (e : E) → (and_then first rest).0 ≡ err e
    → P e
and_then_errors P (err e, s) rest h k f q = h f (cc q)
and_then_errors P (ok a, s) rest h k f q = k a s refl f q

-- A step that refuses nothing: its test fails, and the rest succeeds.
pub refuse_if_ok :
    {E A : Type 0} (t : Bool) (e : E) (rest : Result E A) (a : A)
    → (refuse_if t e >> rest) ≡ ok a
    → (t ≡ false) × (rest ≡ ok a)
refuse_if_ok true e rest a h = absurd (cc h)
refuse_if_ok false e rest a h = (refl, h)

pub refused_last : {E : Type 0} (t : Bool) (e : E) → refuse_if t e ≡ ok tt → t ≡ false
refused_last true e h = absurd (cc h)
refused_last false e h = refl

pub ok_or_ok : {E A : Type 0} (o : Option A) (e : E) (a : A) → ok_or o e ≡ ok a → o ≡ some a
ok_or_ok none e a h = absurd (cc h)
ok_or_ok (some b) e a h = ap some (cc h)
