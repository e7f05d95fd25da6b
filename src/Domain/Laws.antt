-- ===== src/Domain/Laws.antt =====
-- What the enumerations of src/domain.rs promise one another.
use agent_veil.Prelude.{◌≡◌, ◌↔◌, arith, true, false, refl, subst}
use agent_veil.Domain.{DataClass, DataClass-discrete, class_eq, Action, action_eq, precedence}

pub precedence-injective : (a b : Action) → precedence a ≡ precedence b → a ≡ b
unfolding precedence
precedence-injective a b h = ground arith

pub action_eq_iff : (a b : Action) → (action_eq a b ≡ true) ↔ (a ≡ b)
unfolding action_eq
action_eq_iff a b = ground arith

pub class_eq_refl : (a : DataClass) → class_eq a a ≡ true
unfolding class_eq
class_eq_refl a =
    elim (DataClass-discrete a a) as (λ d. elim d [ yes e ↦ true | no n ↦ false ] ≡ true) [
      | yes e ↦ refl
      | no n ↦ absurd (n refl)
    ]

pub class_eq_iff : (a b : DataClass) → (class_eq a b ≡ true) ↔ (a ≡ b)
unfolding class_eq
class_eq_iff a b = (
  elim (DataClass-discrete a b) as (λ d. elim d [ yes e ↦ true | no n ↦ false ] ≡ true → a ≡ b) [
    | yes e ↦ λ _. e
    | no n ↦ λ h. cc
  ],
  λ e. subst (λ x. class_eq a x ≡ true) e (class_eq_refl a),
)
