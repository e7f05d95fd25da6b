-- ===== src/Demo/Clear.antt =====
-- What the searches of src/demo.rs for the originals ensure where they find nothing.
use agent_veil.Demo.{any_window, contains_bytes, synthetic_email, synthetic_private_ip}
use agent_veil.Demo.Tokens.{
  codex_demo_contains_original, contains_original_members, contains_original_values,
}
use agent_veil.Demo.Reads.{take-prefix}
use agent_veil.Detector.Matches.{contains_text, find, find_from}
use agent_veil.Payload.Value.{Value, Values, Members}
use agent_veil.Sse.Text.{starts_with, starts_with-prefix}
use agent_veil.Prelude.{
  ℕ, ◌+◌, ◌<◌, ◌≡◌, ◌++◌, ◌∙◌, Text, bytes, Bool, false, true, ◌||◌, [], ◌∷◌, ap, arith, is_some,
  inl, inr, Bool-cases, length, length-append, take, text_eq, text_eq_refl,
}

-- The text stands somewhere in the other.
abbrev pub Shows : Text → Text → Type 0
Shows s t = (before : Text) × (after : Text) × (s ≡ before ++ (t ++ after))

-- A text that shows none of the originals.
abbrev pub IsClear : Text → Type 0
IsClear s = ¬ Shows s synthetic_email × ¬ Shows s synthetic_private_ip

-- Where no window passes a test, no part of that length passes it.
pub any_window-false :
    (test : Text → Bool) (s before w after : Text)
    → 0 < length w
    → any_window test (length w) s ≡ false
    → s ≡ before ++ (w ++ after)
    → test w ≡ false
unfolding any_window
any_window-false test [] before w after long h e =
    absurd (
      omega (arith, ap (λ x. length x) e, length-append before (w ++ after), length-append w after))
any_window-false test (b ∷ s) [] w after long h e =
    let here : take (length w) (b ∷ s) ≡ w = ap (λ x. take (length w) x) e ∙ take-prefix w after in
    ground (arith, ap test here, ap (λ x. length x) e, length-append w after)
any_window-false test (b ∷ s) (c ∷ before) w after long h e =
    any_window-false test s before w after long (ground arith) (cc e)

pub contains_bytes-false :
    (body t : Text) → 0 < length t → contains_bytes body t ≡ false → ¬ Shows body t
unfolding contains_bytes
contains_bytes-false body t long h (before, after, split) = cc (
  any_window-false (λ w. text_eq w t) body before t after long (ground arith) split,
  text_eq_refl t,
)

find_from-none :
    (i : ℕ) (t s before after : Text)
    → 0 < length t
    → is_some (find_from i t s) ≡ false
    → s ≡ before ++ (t ++ after)
    → ⊥
unfolding find_from
find_from-none i t [] before after long h e =
    omega (arith, ap (λ x. length x) e, length-append before (t ++ after), length-append t after)
find_from-none i t (b ∷ s) [] after long h e =
    let begins : starts_with (b ∷ s) t ≡ true =
      ap (λ x. starts_with x t) e ∙ starts_with-prefix t after in
    cc (rw (begins, find_from) at h)
find_from-none i t (b ∷ s) (c ∷ before) after long h e = elim (Bool-cases (starts_with (b ∷ s) t)) [
  | inl y ↦ cc (rw (y, find_from) at h)
  | inr n ↦ find_from-none (i + 1) t s before after long (rw (n, find_from) at h) (cc e)
]

contains_text-false : (s t : Text) → 0 < length t → contains_text s t ≡ false → ¬ Shows s t
unfolding contains_text find
contains_text-false s t long h (before, after, split) =
    find_from-none 0 t s before after long h split

-- Every string of a value, its keys among them, is clear.
mutual
  pub AreClear : Value → Type 0
  AreClear (Value.string s) = IsClear s
  AreClear (Value.array vs) = AreClearValues vs
  AreClear (Value.object ms) = AreClearMembers ms
  AreClear Value.null = Unit
  AreClear (Value.boolean b) = Unit
  AreClear (Value.number n) = Unit

  pub AreClearValues : Values → Type 0
  AreClearValues Values.nil = Unit
  AreClearValues (Values.cons v vs) = AreClear v × AreClearValues vs

  pub AreClearMembers : Members → Type 0
  AreClearMembers Members.end = Unit
  AreClearMembers (Members.member k v ms) = IsClear k × AreClear v × AreClearMembers ms

string-IsClear :
    (s : Text)
    → (contains_text s synthetic_email || contains_text s synthetic_private_ip) ≡ false
    → IsClear s
unfolding bytes
string-IsClear s h = (
  contains_text-false s synthetic_email (omega arith) (ground arith),
  contains_text-false s synthetic_private_ip (omega arith) (ground arith),
)

mutual
  unfolding codex_demo_contains_original AreClear

  pub contains_original-AreClear : (v : Value) → codex_demo_contains_original v ≡ false → AreClear v
  contains_original-AreClear Value.null h = tt
  contains_original-AreClear (Value.boolean b) h = tt
  contains_original-AreClear (Value.number n) h = tt
  contains_original-AreClear (Value.string s) h = string-IsClear s h
  contains_original-AreClear (Value.array vs) h = values-AreClear vs h
  contains_original-AreClear (Value.object ms) h = members-AreClear ms h

  values-AreClear : (vs : Values) → contains_original_values vs ≡ false → AreClearValues vs
  values-AreClear Values.nil h = tt
  values-AreClear (Values.cons v vs) h =
      (contains_original-AreClear v (ground arith), values-AreClear vs (ground arith))

  members-AreClear : (ms : Members) → contains_original_members ms ≡ false → AreClearMembers ms
  members-AreClear Members.end h = tt
  members-AreClear (Members.member k v ms) h = (
    string-IsClear k (ground arith),
    contains_original-AreClear v (ground arith),
    members-AreClear ms (ground arith),
  )
