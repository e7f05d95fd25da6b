-- ===== src/Ledger.antt =====
-- The token ledger (src/ledger.rs): which token stands for which protected value, in which session
-- and until when. A method returns its result beside the new ledger, also when it fails.
pub mod Entries
pub mod Invariant
pub mod Issue
pub mod Issued
pub mod View
pub mod RoundTrip
pub mod Format
pub mod Eviction
pub mod Rollback
mod Tests
use agent_veil.Prelude.{
  ℕ, zero, suc, ◌+◌, ◌-◌, ◌*◌, ◌/◌, ◌%◌, ◌^◌, min, Text, bytes, text_eq, Bool, true, false, not,
  ◌&&◌, ◌||◌, Option, none, some, List, [], ◌∷◌, ◌++◌, length, all, ltb, leb, ◌==◌, if◌then◌else◌,
  Result, ok, err, ◌>>=◌, ◌>>◌, refuse_if, is_ascii_alphanumeric,
}
use agent_veil.Domain.{DataClass, token_label, hard_block}
use agent_veil.Ledger.Entries.{
  Entry, EntryMap, get, contains_key, insert, remove, retain, find, min_by_last_used, holds,
}

abbrev pub token_random_bytes : ℕ
token_random_bytes = 16

abbrev pub max_token_attempts : ℕ
max_token_attempts = 8

abbrev pub u64_max : ℕ
u64_max = 2 ^ 64 - 1

pub data LedgerError : Type 0 where
  invalid_session_scope invalid_capacity empty_value random_unavailable : LedgerError
  token_encoding token_collision expiry_overflow : LedgerError
  non_restorable_class : DataClass → LedgerError

unfoldable pub is_scope_byte : ℕ → Bool
is_scope_byte b = is_ascii_alphanumeric b || b == b'-' || b == b'_'

-- `SessionScope::parse`; a scope is the text that it accepts.
unfoldable pub parse_scope : Text → Result LedgerError Text
parse_scope v = do
  refuse_if (not (leb 12 (length v) && leb (length v) 64) || not (all is_scope_byte v))
      LedgerError.invalid_session_scope
  ok v

pub record IssuedToken : Type 0 where
  pub token : Text
  pub created : Bool

pub record TokenLedger (R : Type 0) : Type 0 where
  pub entries : EntryMap
  pub max_entries : ℕ
  pub sequence : ℕ
  pub random : R

-- A digit of `{:02X}`.
unfoldable pub hex_digit : ℕ → ℕ
hex_digit n = if ltb n 10 then b'0' + n else b'A' + (n - 10)

-- `{byte:02X}` for each byte.
unfoldable pub encode : Text → Text
encode [] = []
encode (b ∷ s) = hex_digit (b / 16) ∷ hex_digit (b % 16) ∷ encode s

-- `format!("[AV_{}_{encoded}]", label)`
unfoldable pub format_token : DataClass → Text → Text
unfolding bytes
format_token c random =
    bytes "[AV_" ++ (token_label c ++ (bytes "_" ++ (encode random ++ bytes "]")))

-- `u64::checked_mul`, `checked_add` and `saturating_add`
unfoldable pub checked_mul : ℕ → ℕ → Result LedgerError ℕ
checked_mul a b = if leb (a * b) u64_max then ok (a * b) else err LedgerError.expiry_overflow

unfoldable pub checked_add : ℕ → ℕ → Result LedgerError ℕ
checked_add a b = if leb (a + b) u64_max then ok (a + b) else err LedgerError.expiry_overflow

unfoldable pub saturating_add : ℕ → ℕ → ℕ
saturating_add a b = min (a + b) u64_max

-- The early returns of `issue_tracked`, before anything changes; else the time of expiry.
unfoldable pub check_issue : DataClass → Text → ℕ → ℕ → Result LedgerError ℕ
check_issue c value now_ms ttl_seconds = do
  refuse_if (length value == 0) LedgerError.empty_value
  refuse_if (hard_block c) (LedgerError.non_restorable_class c)
  ttl_ms ← checked_mul ttl_seconds 1000
  checked_add now_ms ttl_ms

module _ {R : Type 0} where
  unfoldable pub with_random : ℕ → R → Result LedgerError (TokenLedger R)
  with_random max_entries random = do
    refuse_if (max_entries == 0 || ltb 16384 max_entries) LedgerError.invalid_capacity
    ok (record { entries = []; max_entries = max_entries; sequence = 0; random = random })

  unfoldable pub purge_expired : ℕ → TokenLedger R → TokenLedger R
  purge_expired now_ms s = record s { entries = retain (λ e. ltb now_ms e.expires_at_ms) s.entries }

  unfoldable pub evict_lru : TokenLedger R → TokenLedger R
  evict_lru s = elim (min_by_last_used s.entries) [
    | none ↦ s
    | some (victim, _) ↦ record s { entries = remove victim s.entries }
  ]

  -- The eviction of `issue_tracked`, if the map is full.
  unfoldable pub make_room : TokenLedger R → TokenLedger R
  make_room s = if leb s.max_entries (length s.entries) then evict_lru s else s

  -- `self.sequence = self.sequence.saturating_add(1)`
  unfoldable pub advance : TokenLedger R → TokenLedger R
  unfolding saturating_add
  advance s = record s { sequence = saturating_add s.sequence 1 }

  unfoldable pub rollback_created : Text → List Text → TokenLedger R → TokenLedger R
  rollback_created scope [] s = s
  rollback_created scope (t ∷ ts) s = rollback_created scope ts (elim (get t s.entries) [
    | none ↦ s
    | some e ↦ if text_eq e.scope scope then record s { entries = remove t s.entries } else s
  ])

  -- `restore_exact` from the ledger that the purge left.
  unfoldable pub restore_from : Text → Text → ℕ → TokenLedger R → Option Text × TokenLedger R
  restore_from scope token now_ms s = elim (get token s.entries) [
    | none ↦ (none, s)
    | some e ↦ if not (text_eq e.scope scope) || leb e.expires_at_ms now_ms then (none, s) else (
      some e.value,
      record s { entries = insert token (record e { last_used_sequence = s.sequence }) s.entries },
    )
  ]

  unfoldable pub restore_exact : Text → Text → ℕ → TokenLedger R → Option Text × TokenLedger R
  restore_exact scope token now_ms s =
      restore_from scope token now_ms (advance (purge_expired now_ms s))

  unfoldable pub owns_token : Text → Text → ℕ → TokenLedger R → Bool × TokenLedger R
  owns_token scope token now_ms s =
      let s' = purge_expired now_ms s in
      (
        elim (get token s'.entries) [
          | none ↦ false
          | some e ↦ text_eq e.scope scope && ltb now_ms e.expires_at_ms
        ],
        s',
      )

  unfoldable pub clear_scope : Text → TokenLedger R → ℕ × TokenLedger R
  clear_scope scope s =
      let kept = retain (λ e. not (text_eq e.scope scope)) s.entries in
      (length s.entries - length kept, record s { entries = kept })

  unfoldable pub clear_all : TokenLedger R → ℕ × TokenLedger R
  clear_all s = (length s.entries, record s { entries = [] })

  unfoldable pub entry_count : ℕ → TokenLedger R → ℕ × TokenLedger R
  entry_count now_ms s = let s' = purge_expired now_ms s in (length s'.entries, s')

-- `RandomSource::fill` on an array of sixteen bytes is the parameter.
module _ {R : Type 0} (fill : R → Result LedgerError Text × R) where
  unfoldable pub generate_token : DataClass → R → Result LedgerError Text × R
  generate_token c random =
      let (filled, random') = fill random in ((do b ← filled; ok (format_token c b)), random')

  -- The loop over the attempts, `n` of them left.
  unfoldable pub attempt :
      ℕ → Entry → TokenLedger R → Result LedgerError IssuedToken × TokenLedger R
  attempt zero e s = (err LedgerError.token_collision, s)
  attempt (suc n) e s =
      let (generated, random') = generate_token e.data_class s.random in
      let s' : TokenLedger R = record s { random = random' } in
      elim generated [
        | err failure ↦ (err failure, s')
        | ok token ↦ elim (contains_key token s'.entries) [
          | true ↦ attempt n e s'
          | false ↦ (
            ok (record { token = token; created = true }),
            record s' { entries = insert token e s'.entries },
          )
        ]
      ]

  -- `issue_tracked` after the checks, the purge and the new sequence number.
  unfoldable pub place :
      Text
      → DataClass
      → Text
      → ℕ
      → ℕ
      → TokenLedger R
      → Result LedgerError IssuedToken × TokenLedger R
  place scope c value now_ms expires s =
      elim (find (λ e. holds scope c value e && ltb now_ms e.expires_at_ms) s.entries) [
        | some (token, e) ↦ (
          ok (record { token = token; created = false }),
          record s {
            entries =
                insert token (record e { last_used_sequence = s.sequence; expires_at_ms = expires })
                  s.entries;
          },
        )
        | none ↦
            attempt max_token_attempts
              (record {
                scope = scope;
                data_class = c;
                value = value;
                expires_at_ms = expires;
                last_used_sequence = s.sequence;
              })
              (make_room s)
      ]

  unfoldable pub issue_tracked :
      Text
      → DataClass
      → Text
      → ℕ
      → ℕ
      → TokenLedger R
      → Result LedgerError IssuedToken × TokenLedger R
  issue_tracked scope c value now_ms ttl_seconds s = elim (check_issue c value now_ms ttl_seconds) [
    | err e ↦ (err e, s)
    | ok expires ↦ place scope c value now_ms expires (advance (purge_expired now_ms s))
  ]

  unfoldable pub issue :
      Text → DataClass → Text → ℕ → ℕ → TokenLedger R → Result LedgerError Text × TokenLedger R
  issue scope c value now_ms ttl_seconds s =
      let (r, s') = issue_tracked scope c value now_ms ttl_seconds s in
      ((do issued ← r; ok issued.token), s')
