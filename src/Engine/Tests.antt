-- ===== src/Engine/Tests.antt =====
-- Requests through `protect` of src/engine.rs, and its theorems at them.
use agent_veil.Payload.Controls.{validate_top_level_controls}
use agent_veil.Engine.Errors.{IsReachable, protect-IsReachable}
use agent_veil.Engine.Valid.{protect-IsValid}
use agent_veil.Engine.Purged.{IsPurged, protect_blocked}
use agent_veil.Engine.Plan.{
  EngineError, ProtectionSummary, base_action, decide, plan_target, plan_targets, action_in,
  summarize, has_action, add_finding, add_findings, add_plans, is_summary_of, sort_summaries,
  insert_summary, summary_le,
}
use agent_veil.Engine.Apply.{
  apply_rewrites, rewrite_findings, rewrite_finding, replacement, write_back, sort_reversed,
  insert_reversed, mask,
}
use agent_veil.Engine.Protect.{protect, enforce, finish_rewrites, serialize, ProtectionOutcome}
use agent_veil.Engine.Slice.{get_range, is_char_boundary, replace_range}
use agent_veil.Detector.{
  resolve_overlaps, sort_by_key, insert_sorted, span_le, merge, merge_from, stronger, outranks,
  component, DetectorError,
}
use agent_veil.Domain.{
  Action, DataClass, DetectorId, Confidence, FieldClass, Finding, class_eq, DataClass-discrete,
  action_eq, precedence, policy_key, token_label, class_rank, detector_rank, confidence_rank,
  field_rank,
}
use agent_veil.Ledger.{TokenLedger, LedgerError, with_random}
use agent_veil.Ledger.Invariant.{IsValid, with_random-IsValid}
use agent_veil.Payload.Tests.{sample}
use agent_veil.Payload.Request.{
  parse, parse_value, text, locate, unique_value, unique_values, unique_members, insert_member,
  text_lt, replace_text, write, check_root, top_level_keys, collect_targets, collect_instructions,
  collect_input, collect_tools, collect_metadata,
}
use agent_veil.Payload.Strings.{
  collect_untracked_strings, collect_untracked_values, collect_untracked_members, track,
}
use agent_veil.Payload.Target.{
  PayloadError, new_target, structural_literal, segment_eq, path_eq, texts, require_string,
  require_bool, require_optional_string, ensure_allowed_keys,
}
use agent_veil.Payload.Value.{Value, get_member, set_member}
use agent_veil.Policy.{lookup, rule_for}
use agent_veil.Policy.Tests.{default, to_vec, digest, validated, default_validates}
use agent_veil.Prelude.{
  ℕ, ◌+◌, ◌%◌, Text, bytes, Option, none, some, List, [], ◌∷◌, ◌≡◌, Result, ok, err, refl,
  replicate, text_eq, contains, if◌then◌else◌,
}

abbrev fill : ℕ → Result LedgerError Text × ℕ
fill r = (ok (replicate 16 ((r + 1) % 256)), r + 1)

abbrev start : TokenLedger ℕ
start = record { entries = []; max_entries = 4; sequence = 0; random = 0 }

abbrev finding : DataClass → Finding
finding c = record {
  data_class = c;
  detector = DetectorId.email;
  confidence = Confidence.high;
  source_span = record { start = 0; end = 2 };
}

-- A scanner that finds the class in the text of the input, and nothing elsewhere.
abbrev scan : DataClass → Text → Result DetectorError (List Finding)
scan c s = if text_eq s (bytes "hi") then ok (finding c ∷ []) else ok []

abbrev from_slice : Text → Option Value
from_slice body = some sample

abbrev refuse : Text → Option Value
refuse body = none

abbrev print : Value → Option Text
print (Value.object ms) = elim (get_member (bytes "input") ms) [
  | none ↦ none
  | some v ↦ elim v [ Value.string s ↦ some s | _ ↦ none ]
]
print v = none

abbrev scope : Text
scope = bytes "scope_A_123456"

abbrev block_summary : ProtectionSummary
block_summary = record {
  scanned_fields = 9;
  findings =
      record {
        detector = DetectorId.email;
        data_class = DataClass.credentials;
        confidence = Confidence.high;
        action = Action.block;
        source_field = FieldClass.message_text;
        count = 1;
      }
      ∷ [];
}

blocks_credentials :
    protect fill validated from_slice print (scan DataClass.credentials) [] scope 0 start
    ≡ (ok (ProtectionOutcome.blocked block_summary), start)
unfolding base_action decide plan_target plan_targets action_in summarize has_action add_finding
    add_findings add_plans is_summary_of sort_summaries insert_summary summary_le apply_rewrites
    rewrite_findings rewrite_finding replacement write_back sort_reversed insert_reversed mask
    protect enforce finish_rewrites serialize get_range is_char_boundary replace_range
    resolve_overlaps sort_by_key insert_sorted span_le merge merge_from stronger outranks component
    class_eq action_eq precedence policy_key token_label class_rank detector_rank confidence_rank
    field_rank parse parse_value text locate unique_value unique_values unique_members insert_member
    text_lt replace_text write collect_untracked_strings collect_untracked_values
    collect_untracked_members track new_target structural_literal segment_eq path_eq get_member
    set_member lookup rule_for DataClass-discrete bytes text_eq contains check_root top_level_keys
    texts require_string require_bool require_optional_string ensure_allowed_keys
    validate_top_level_controls collect_targets collect_instructions collect_input collect_tools
    collect_metadata
blocks_credentials = refl

malformed :
    (protect fill validated refuse print (scan DataClass.credentials) [] scope 0 start).0
    ≡ err (EngineError.payload PayloadError.json)
unfolding protect parse
malformed = refl

start-IsValid : IsValid start
unfolding with_random
start-IsValid = with_random-IsValid 4 0 start refl

protect-IsValid_example :
    IsValid (protect fill validated from_slice print (scan DataClass.email) [] scope 0 start).1
protect-IsValid_example =
    protect-IsValid fill validated from_slice print (scan DataClass.email) [] scope 0 start
      start-IsValid

protect-IsReachable_example : IsReachable (EngineError.payload PayloadError.json)
protect-IsReachable_example =
    protect-IsReachable to_vec digest default validated default_validates fill refuse print
      (scan DataClass.credentials) [] scope 0 start (EngineError.payload PayloadError.json)
      malformed

protect_blocked_example : IsPurged 0 start start
protect_blocked_example =
    protect_blocked fill validated from_slice print (scan DataClass.credentials) [] scope 0 start
      start block_summary blocks_credentials
