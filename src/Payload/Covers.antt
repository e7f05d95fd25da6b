-- ===== src/Payload/Covers.antt =====
-- Nothing escapes the targets of src/payload.rs: every string of an accepted request is the place of
-- a target, and every key of every object is a literal target.
pub mod Track
pub mod Walk
pub mod Collected
pub mod Kinds
pub mod Keys
use agent_veil.Payload.Covers.Keys.{untracked-Named}
use agent_veil.Payload.Covers.Kinds.{collect_targets-Emits}
use agent_veil.Payload.Covers.Collected.{IsLocated}
use agent_veil.Payload.Covers.Track.{IsPlaced}
use agent_veil.Payload.Covers.Walk.{untracked-Covered}
use agent_veil.Payload.Strings.{collect_untracked_strings}
use agent_veil.Payload.Target.{FieldPath, Targets, TextTarget}
use agent_veil.Prelude.{
  ◌≡◌, ok, Text, [], All, ok_of_bind, arith, refl, All-imp, inl, ◌≢◌, none, In, ap, some, subst,
  subst₂, sym,
}
use agent_veil.Payload.Value.{Value, Members, get_member}
use agent_veil.Payload.Request.{
  parse_value, ValidatedRequest, collect_targets, locate, check_root, text,
}

parse_value-inversion :
    (v : Value) (r : ValidatedRequest)
    → parse_value v ≡ ok r
    → (root : Members) × (ts : Targets) × (v ≡ Value.object root)
      × (collect_targets root ≡ ok ts)
      × (r ≡ record { value = v; targets = collect_untracked_strings v [] ts })
unfolding parse_value
parse_value-inversion (Value.object root) r h =
    let (u, rest, checked) = ok_of_bind (check_root root) _ h in
    let (ts, done, collected) = ok_of_bind (collect_targets root) _ rest in
    (root, ts, refl, collected, ground arith)
parse_value-inversion Value.null r h = absurd (cc h)
parse_value-inversion (Value.boolean b) r h = absurd (cc h)
parse_value-inversion (Value.number n) r h = absurd (cc h)
parse_value-inversion (Value.string s) r h = absurd (cc h)
parse_value-inversion (Value.array vs) r h = absurd (cc h)

not_string : (root : Members) (s : Text) → locate (Value.object root) [] ≢ ok (Value.string s)
unfolding locate
not_string root s e = cc e

-- Reading a target with a path is to locate its string.
text_of_target :
    (r : ValidatedRequest) (t : TextTarget) (path : FieldPath) (s : Text)
    → t.literal ≡ none
    → t.path ≡ path
    → locate r.value path ≡ ok (Value.string s)
    → text r t ≡ ok s
unfolding text
text_of_target r t path s l p at = rw (l, text, p, at)

-- Every string of an accepted request, at whatever depth, is the place of a target that reads it.
pub string-IsTarget :
    (v : Value) (r : ValidatedRequest)
    → parse_value v ≡ ok r
    → (path : FieldPath) (s : Text) → locate r.value path ≡ ok (Value.string s)
    → (t : TextTarget) × In t r.targets × (t.path ≡ path) × (text r t ≡ ok s)
string-IsTarget v r h path s at =
    let (root, ts, shape, collected, made) = parse_value-inversion v r h in
    let located : All IsLocated ts = (collect_targets-Emits root).located ts collected in
    let placed : All IsPlaced ts = All-imp IsLocated IsPlaced (λ t l. inl l) ts located in
    let value : r.value ≡ v = ap (λ (q : ValidatedRequest). q.value) made in
    let at' : locate v path ≡ ok (Value.string s) =
      subst (λ u. locate u path ≡ ok (Value.string s)) value at in
    let nonempty : path ≢ [] =
      λ e. not_string root s (subst₂ (λ u q. locate u q ≡ ok (Value.string s)) shape e at') in
    let (t, i, p, l) = untracked-Covered v [] ts path s placed nonempty at' in
    let known : r.targets ≡ collect_untracked_strings v [] ts =
      ap (λ (q : ValidatedRequest). q.targets) made in
    (t, subst (In t) (sym known) i, p, text_of_target r t path s l p at)

-- Every key of every object of an accepted request is read by a target.
pub key-IsTarget :
    (v : Value) (r : ValidatedRequest)
    → parse_value v ≡ ok r
    → (path : FieldPath) (object : Members) (k : Text) (x : Value)
    → locate r.value path ≡ ok (Value.object object)
    → get_member k object ≡ some x
    → (t : TextTarget) × In t r.targets × (text r t ≡ ok k)
unfolding text
key-IsTarget v r h path object k x at g =
    let (root, ts, shape, collected, made) = parse_value-inversion v r h in
    let value : r.value ≡ v = ap (λ (q : ValidatedRequest). q.value) made in
    let (t, i, l) =
      untracked-Named v [] ts path object k x g
        (subst (λ u. locate u path ≡ ok (Value.object object)) value at) in
    let known : r.targets ≡ collect_untracked_strings v [] ts =
      ap (λ (q : ValidatedRequest). q.targets) made in
    (t, subst (In t) (sym known) i, rw (l, text))
