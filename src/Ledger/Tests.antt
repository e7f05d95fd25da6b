-- ===== src/Ledger/Tests.antt =====
-- Runs of the ledger of src/ledger.rs, and its theorems at concrete calls.
use agent_veil.Ledger.Eviction.{make_room_full}
use agent_veil.Ledger.RoundTrip.{issue_tracked_again, restore-issue}
use agent_veil.Ledger.Entries.Recency.{last_used}
use agent_veil.Ledger.Rollback.{rollback_created-issue, is_owned, get-rollback_created}
use agent_veil.Ledger.Format.{
  FillsBytes, IsReserved, format_token-injective, generate_token-IsReserved, IsByte,
}
use agent_veil.Ledger.View.{view, view-restore_exact, view-clear_scope}
use agent_veil.Ledger.Issued.{issued-IsValid, issue_tracked-IsValid, ready}
use agent_veil.Domain.{DataClass, hard_block, token_label, class_eq, DataClass-discrete}
use agent_veil.Ledger.Entries.{
  Entry, get, min_by_last_used, min_from, find, retain, insert, remove, contains_key, holds,
}
use agent_veil.Prelude.{
  Text, ◌≡◌, bytes, Result, [], ◌∷◌, ok, if◌then◌else◌, In, subst, replicate, refl, text_eq, arith,
  contains, All, length, ◌+◌, ◌&&◌, none, ◌%◌, ltb, false, ◌≤◌, ◌*◌, some,
}
use agent_veil.Ledger.{
  LedgerError, IssuedToken, TokenLedger, issue_tracked, restore_exact, rollback_created, make_room,
  ℕ, true, check_issue, checked_mul, with_random, clear_scope, checked_add, place, attempt,
  generate_token, format_token, encode, hex_digit, purge_expired, advance, saturating_add,
  evict_lru, restore_from,
}
use agent_veil.Ledger.Invariant.{IsValid, with_random-IsValid}

-- `CounterRandom` of the tests of src/ledger.rs.
abbrev fill : ℕ → Result LedgerError Text × ℕ
fill r = (ok (replicate 16 ((r + 1) % 256)), r + 1)

abbrev empty : TokenLedger ℕ
empty = record { entries = []; max_entries = 1; sequence = 0; random = 0 }

abbrev scope_a : Text
scope_a = bytes "scope_A_123456"

abbrev scope_b : Text
scope_b = bytes "scope_B_123456"

abbrev ava : Text
ava = bytes "ava@example.test"

abbrev token : Text
token = bytes "[AV_EMAIL_01010101010101010101010101010101]"

abbrev entry : Entry
entry = record {
  scope = scope_a;
  data_class = DataClass.email;
  value = ava;
  expires_at_ms = 60000;
  last_used_sequence = 1;
}

abbrev full : TokenLedger ℕ
full = record { entries = (token, entry) ∷ []; max_entries = 1; sequence = 1; random = 1 }

abbrev issued : IssuedToken
issued = record { token = token; created = true }

program : Unit {0}
unfolding issue_tracked check_issue checked_mul checked_add place attempt generate_token
    format_token encode hex_digit purge_expired advance saturating_add make_room evict_lru
    min_by_last_used min_from find retain insert remove get contains_key holds hard_block
    token_label class_eq DataClass-discrete text_eq bytes restore_exact restore_from
    rollback_created
program = tt

first_issue : issue_tracked fill scope_a DataClass.email ava 0 60 empty ≡ (ok issued, full)
unfolding program
first_issue = refl

empty-IsValid : IsValid empty
empty-IsValid = with_random-IsValid 1 0 empty (unfold with_random in refl)

full-IsValid : IsValid full
full-IsValid =
    issued-IsValid fill scope_a DataClass.email ava 0 60 empty empty-IsValid issued full first_issue

issue_tracked-IsValid_example : IsValid (issue_tracked fill scope_b DataClass.email ava 1 60 full).1
issue_tracked-IsValid_example =
    issue_tracked-IsValid fill scope_b DataClass.email ava 1 60 full full-IsValid

restore-issue_example :
    (restore_exact scope_b token 10 full).0
    ≡ (if text_eq scope_a scope_b && ltb 10 (0 + 60 * 1000) then some ava else none)
restore-issue_example =
    restore-issue fill scope_a DataClass.email ava 0 60 empty empty-IsValid issued full first_issue
      scope_b 10

issue_tracked_again_example :
    (issue_tracked fill scope_a DataClass.email ava 10 60 full).0
    ≡ ok (record { token = token; created = false })
unfolding check_issue checked_mul checked_add hard_block bytes
issue_tracked_again_example =
    issue_tracked_again fill token entry full full-IsValid (unfold get text_eq bytes in refl) 10 60
      60010 (omega arith) refl

view-restore_exact_example :
    view (restore_exact scope_a token 10 full).1 scope_a 20 token ≡ view full scope_a 20 token
view-restore_exact_example =
    view-restore_exact full full-IsValid scope_a token 10 scope_a token 20 (omega arith)

view-clear_scope_example :
    view (clear_scope scope_a full).1 scope_a 20 token
    ≡ (if text_eq scope_a scope_a then none else view full scope_a 20 token)
view-clear_scope_example = view-clear_scope full full-IsValid scope_a scope_a token 20

get-rollback_created_example : get token (rollback_created scope_b (token ∷ []) full).entries ≡ (
    if contains (token ∷ []) token && is_owned scope_b (get token full.entries)
    then none
    else get token full.entries)
get-rollback_created_example = get-rollback_created scope_b (token ∷ []) full full-IsValid token

rollback_created-issue_example :
    get token (rollback_created scope_a (token ∷ []) full).entries
    ≡ get token (make_room (ready fill 0 empty)).entries
rollback_created-issue_example =
    rollback_created-issue fill scope_a DataClass.email ava 0 60 empty empty-IsValid issued full
      first_issue refl token

make_room_full_example :
    (victim : Text × Entry) × In victim full.entries
    × All (λ y. last_used victim ≤ last_used y) full.entries
    × ((k : Text)
        → get k (make_room full).entries
          ≡ (if text_eq victim.0 k then none else get k full.entries))
make_room_full_example = make_room_full full full-IsValid refl

format_token-injective_example : ava ≡ ava
unfolding bytes
format_token-injective_example =
    format_token-injective DataClass.email ava ava (omega arith) (omega arith) refl

fill-FillsBytes : FillsBytes fill
fill-FillsBytes r b h =
    let e : replicate 16 ((r + 1) % 256) ≡ b = cc h in
    subst (λ t. (length t ≡ 16) × All IsByte t) e (omega arith)

generate_token-IsReserved_example : IsReserved token
unfolding program
generate_token-IsReserved_example =
    generate_token-IsReserved fill fill-FillsBytes DataClass.email 0 token refl refl
