-- ===== src/Demo/Tokens.antt =====
-- What src/demo.rs reads in the strings of a request: the synthetic originals, and the tokens in
-- their place. A `BTreeSet` is the list of its members; only a set of one member is read.
use agent_veil.Demo.{synthetic_email, synthetic_private_ip}
use agent_veil.Detector.Matches.{contains_text, match_indices}
use agent_veil.Engine.Slice.{get_range}
use agent_veil.Payload.Value.{Value, Values, Members}
use agent_veil.Prelude.{
  ℕ, ◌+◌, Text, bytes, Bool, false, ◌&&◌, ◌||◌, leb, Option, none, some, List, [], ◌∷◌,
  if◌then◌else◌, all, contains, drop, take, length, is_ascii_digit, text_eq,
}

unfoldable mutual
  pub codex_demo_contains_original : Value → Bool
  codex_demo_contains_original (Value.string s) =
      contains_text s synthetic_email || contains_text s synthetic_private_ip
  codex_demo_contains_original (Value.array vs) = contains_original_values vs
  codex_demo_contains_original (Value.object ms) = contains_original_members ms
  codex_demo_contains_original Value.null = false
  codex_demo_contains_original (Value.boolean b) = false
  codex_demo_contains_original (Value.number n) = false

  pub contains_original_values : Values → Bool
  contains_original_values Values.nil = false
  contains_original_values (Values.cons v vs) =
      codex_demo_contains_original v || contains_original_values vs

  pub contains_original_members : Members → Bool
  contains_original_members Members.end = false
  contains_original_members (Members.member k v ms) =
      ((contains_text k synthetic_email || contains_text k synthetic_private_ip)
        || codex_demo_contains_original v)
      || contains_original_members ms

abbrev pub random_hex_length : ℕ
random_hex_length = 32

abbrev pub ends_with_bracket : Text → Bool
ends_with_bracket [] = false
ends_with_bracket (b ∷ []) = text_eq (b ∷ []) (bytes "]")
ends_with_bracket (b ∷ c ∷ s) = ends_with_bracket (c ∷ s)

unfoldable pub is_token_digit : ℕ → Bool
is_token_digit b = is_ascii_digit b || (leb b'A' b && leb b b'F')

-- The token at a match of its prefix.
unfoldable pub token_at : Text → Text → ℕ → Option Text
token_at text prefix start =
    elim (get_range text
      (record { start = start; end = start + length prefix + random_hex_length + 1 })) [
        | none ↦ none
        | some candidate ↦
            if ends_with_bracket candidate
              && all is_token_digit (take random_hex_length (drop (length prefix) candidate))
            then some candidate
            else none
      ]

-- `BTreeSet::insert`
unfoldable pub insert_token : Text → List Text → List Text
insert_token token tokens = if contains tokens token then tokens else token ∷ tokens

-- The loop over the matches.
unfoldable pub collect_tokens_at : Text → Text → List ℕ → List Text → List Text
collect_tokens_at text prefix [] tokens = tokens
collect_tokens_at text prefix (start ∷ starts) tokens = elim (token_at text prefix start) [
  | none ↦ collect_tokens_at text prefix starts tokens
  | some token ↦ collect_tokens_at text prefix starts (insert_token token tokens)
]

unfoldable pub collect_tokens_with_prefix : Text → Text → List Text → List Text
collect_tokens_with_prefix text prefix tokens =
    collect_tokens_at text prefix (match_indices text prefix) tokens

-- The tokens of the address and those of the host.
pub record TokenSets : Type 0 where
  pub email_tokens : List Text
  pub private_ip_tokens : List Text

-- Both calls for one text.
unfoldable pub collect_both : Text → TokenSets → TokenSets
unfolding bytes
collect_both text sets = record {
  email_tokens = collect_tokens_with_prefix text (bytes "[AV_EMAIL_") sets.email_tokens;
  private_ip_tokens = collect_tokens_with_prefix text (bytes "[AV_IPV4_") sets.private_ip_tokens;
}

unfoldable mutual
  pub collect_codex_demo_tokens : Value → TokenSets → TokenSets
  collect_codex_demo_tokens (Value.string s) sets = collect_both s sets
  collect_codex_demo_tokens (Value.array vs) sets = collect_token_values vs sets
  collect_codex_demo_tokens (Value.object ms) sets = collect_token_members ms sets
  collect_codex_demo_tokens Value.null sets = sets
  collect_codex_demo_tokens (Value.boolean b) sets = sets
  collect_codex_demo_tokens (Value.number n) sets = sets

  pub collect_token_values : Values → TokenSets → TokenSets
  collect_token_values Values.nil sets = sets
  collect_token_values (Values.cons v vs) sets =
      collect_token_values vs (collect_codex_demo_tokens v sets)

  pub collect_token_members : Members → TokenSets → TokenSets
  collect_token_members Members.end sets = sets
  collect_token_members (Members.member k v ms) sets =
      collect_token_members ms (collect_codex_demo_tokens v (collect_both k sets))

-- The only member of each set.
unfoldable pub only_tokens : List Text → List Text → Option (Text × Text)
only_tokens (email ∷ []) (private_ip ∷ []) = some (email, private_ip)
only_tokens _ _ = none

unfoldable pub codex_demo_tokens : Value → Option (Text × Text)
codex_demo_tokens request =
    let sets =
      collect_codex_demo_tokens request (record { email_tokens = []; private_ip_tokens = [] }) in
    only_tokens sets.email_tokens sets.private_ip_tokens
