-- ===== src/Payload/Covers/Collected.antt =====
-- The collectors of src/payload.rs emit targets with a path, never a literal.
use agent_veil.Payload.Strings.{
  collect_tool_value, collect_all_strings, tool_string, collect_all_values, collect_all_members,
  is_tool_identifier, collect_tool_values, collect_tool_members,
}
use agent_veil.Domain.{FieldClass}
use agent_veil.Payload.Items.{
  text_target, encrypted_part, agent_part, content_part, output_part, reasoning_part,
  structural_members,
}
use agent_veil.Prelude.{
  ℕ, err, Bool, ◌≡◌, All, ◌>>=◌, if◌then◌else◌, none, ok, [], Text, subst, true, ◌++◌, ◌+◌, ◌∷◌,
  false, All-append, refl, Option, Bool-cases, inl, inr, some,
}
use agent_veil.Payload.Value.{Value, Values, Members}
use agent_veil.Payload.Target.{
  PayloadError, TextTarget, Checked, Targets, new_target, each_value, FieldPath, RewriteMode,
  PathSegment,
}

abbrev pub IsLocated : TextTarget → Type 0
IsLocated t = t.literal ≡ none

-- What a collector returns, if it returns, is located.
pub record Emits (r : Checked Targets) : Type 0 where
  pub located : (ts : Targets) → r ≡ ok ts → All IsLocated ts

pub Emits-err : (e : PayloadError) → Emits (err e)
Emits-err e = record { located = λ ts h. absurd (cc h) }

pub Emits-ok : (ts : Targets) → All IsLocated ts → Emits (ok ts)
Emits-ok ts a = record { located = λ us h. let e : ts ≡ us = cc h in subst (All IsLocated) e a }

pub Emits-new :
    (path : FieldPath) (c : FieldClass) (m : RewriteMode) → Emits (ok (new_target path c m ∷ []))
unfolding new_target
Emits-new path c m = Emits-ok _ (refl, tt)

pub Emits-bind :
    {A : Type 0} (m : Checked A) (f : A → Checked Targets)
    → ((a : A) → Emits (f a))
    → Emits (m >>= f)
Emits-bind (ok a) f h = h a
Emits-bind (err e) f h = Emits-err e

-- The rest may use that what came before is located.
pub Emits-chain :
    (m : Checked Targets) (f : Targets → Checked Targets)
    → Emits m
    → ((ts : Targets) → All IsLocated ts → Emits (f ts))
    → Emits (m >>= f)
Emits-chain (ok ts) f hm hf = hf ts (hm.located ts refl)
Emits-chain (err e) f hm hf = Emits-err e

pub Emits-if : (b : Bool) (x y : Checked Targets) → Emits x → Emits y → Emits (if b then x else y)
Emits-if true x y hx hy = hx
Emits-if false x y hx hy = hy

pub Emits-nil : Emits (ok [])
Emits-nil = Emits-ok [] tt

pub ruleset emits_rules = (Emits-err, Emits-nil, Emits-new, Emits-bind, Emits-if)

pub Emits-append :
    (m n : Checked Targets) → Emits m → Emits n → Emits (m >>= λ ts. n >>= λ us. ok (ts ++ us))
Emits-append (err e) n hm hn = Emits-err e
Emits-append (ok ts) (err e) hm hn = Emits-err e
Emits-append (ok ts) (ok us) hm hn =
    Emits-ok (ts ++ us) (All-append IsLocated ts us (hm.located ts refl) (hn.located us refl))

pub each_value-Emits :
    (body : ℕ → Value → Checked Targets)
    → ((i : ℕ) (v : Value) → Emits (body i v))
    → (i : ℕ) (vs : Values) → Emits (each_value body i vs)
unfolding each_value
each_value-Emits body h i Values.nil = Emits-ok [] tt
each_value-Emits body h i (Values.cons v vs) =
    Emits-append (body i v) (each_value body (i + 1) vs) (h i v)
      (each_value-Emits body h (i + 1) vs)

pub text_target-Emits :
    (base : FieldPath) (field : Text) (i : ℕ) (class : FieldClass) (part : Members)
    → Emits (text_target base field i class part)
unfolding text_target
text_target-Emits base field i class part = search emits_rules

pub encrypted_part-Emits : (part : Members) → Emits (encrypted_part part)
unfolding encrypted_part
encrypted_part-Emits part = search emits_rules

pub agent_part-Emits : (base : FieldPath) (i : ℕ) (v : Value) → Emits (agent_part base i v)
unfolding agent_part
agent_part-Emits base i v = search (emits_rules, text_target-Emits, encrypted_part-Emits)

pub content_part-Emits :
    (base : FieldPath) (class : FieldClass) (i : ℕ) (v : Value)
    → Emits (content_part base class i v)
unfolding content_part
content_part-Emits base class i v = search (emits_rules, text_target-Emits) depth 7

pub output_part-Emits :
    (base : FieldPath) (class : FieldClass) (i : ℕ) (v : Value) → Emits (output_part base class i v)
unfolding output_part
output_part-Emits base class i v =
    search (emits_rules, text_target-Emits, encrypted_part-Emits) depth 7

pub reasoning_part-Emits :
    (base : FieldPath) (field : Text) (i : ℕ) (v : Value) → Emits (reasoning_part base field i v)
unfolding reasoning_part
reasoning_part-Emits base field i v = search (emits_rules, text_target-Emits) depth 7

mutual
  unfolding collect_tool_value tool_string new_target

  pub tool_value-All :
      (v : Value) (path : FieldPath) (key : Option Text)
      → All IsLocated (collect_tool_value v path key)
  tool_value-All Value.null path key = tt
  tool_value-All (Value.boolean b) path key = tt
  tool_value-All (Value.number n) path key = tt
  tool_value-All (Value.string s) path key = elim (Bool-cases (is_tool_identifier key)) [
    | inl skip ↦ rw (skip, tool_string) tt
    | inr push ↦ rw (push, tool_string) (refl, tt)
  ]
  tool_value-All (Value.array vs) path key = tool_values-All vs 0 path key
  tool_value-All (Value.object ms) path key = tool_members-All ms path

  tool_values-All :
      (vs : Values) (i : ℕ) (path : FieldPath) (key : Option Text)
      → All IsLocated (collect_tool_values vs i path key)
  tool_values-All Values.nil i path key = tt
  tool_values-All (Values.cons v vs) i path key =
      All-append IsLocated _ _ (tool_value-All v (path ++ PathSegment.index i ∷ []) key)
        (tool_values-All vs (i + 1) path key)

  tool_members-All :
      (ms : Members) (path : FieldPath) → All IsLocated (collect_tool_members ms path)
  tool_members-All Members.end path = tt
  tool_members-All (Members.member k v ms) path =
      All-append IsLocated _ _ (tool_value-All v (path ++ PathSegment.key k ∷ []) (some k))
        (tool_members-All ms path)

mutual
  unfolding collect_all_strings new_target

  collect_all_strings-All :
      (v : Value) (path : FieldPath) (class : FieldClass)
      → All IsLocated (collect_all_strings v path class)
  collect_all_strings-All Value.null path class = tt
  collect_all_strings-All (Value.boolean b) path class = tt
  collect_all_strings-All (Value.number n) path class = tt
  collect_all_strings-All (Value.string s) path class = (refl, tt)
  collect_all_strings-All (Value.array vs) path class = collect_all_values-All vs 0 path class
  collect_all_strings-All (Value.object ms) path class = collect_all_members-All ms path class

  collect_all_values-All :
      (vs : Values) (i : ℕ) (path : FieldPath) (class : FieldClass)
      → All IsLocated (collect_all_values vs i path class)
  collect_all_values-All Values.nil i path class = tt
  collect_all_values-All (Values.cons v vs) i path class =
      All-append IsLocated _ _ (collect_all_strings-All v (path ++ PathSegment.index i ∷ []) class)
        (collect_all_values-All vs (i + 1) path class)

  collect_all_members-All :
      (ms : Members) (path : FieldPath) (class : FieldClass)
      → All IsLocated (collect_all_members ms path class)
  collect_all_members-All Members.end path class = tt
  collect_all_members-All (Members.member k v ms) path class =
      All-append IsLocated _ _ (collect_all_strings-All v (path ++ PathSegment.key k ∷ []) class)
        (collect_all_members-All ms path class)

pub structural_members-All :
    (ms : Members) (base : FieldPath) → All IsLocated (structural_members ms base)
unfolding structural_members
structural_members-All Members.end base = tt
structural_members-All (Members.member k v ms) base =
    All-append IsLocated _ _ (either _) (structural_members-All ms base)
  where
    either :
        (b : Bool)
        → All IsLocated (
            if b
            then []
            else collect_all_strings v
                (base ++ PathSegment.key k ∷ [])
                FieldClass.function_arguments)
    either true = tt
    either false =
        collect_all_strings-All v (base ++ PathSegment.key k ∷ []) FieldClass.function_arguments
