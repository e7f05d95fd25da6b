-- ===== src/Payload/Strings.antt =====
-- The walks of src/payload.rs over every string of a value: `collect_tool_value`,
-- `collect_all_strings` and `collect_untracked_strings`. The first two never fail.
use agent_veil.Domain.{FieldClass}
use agent_veil.Prelude.{
  ℕ, Option, Text, Bool, if◌then◌else◌, [], false, ◌++◌, any, ◌+◌, some, bytes, ◌∷◌, contains, none,
}
use agent_veil.Payload.Value.{Value, Values, is_text, Members}
use agent_veil.Payload.Target.{
  FieldPath, Targets, new_target, RewriteMode, PathSegment, path_eq, texts, structural_literal,
}

-- The keys whose strings `collect_tool_value` passes over.
unfoldable pub is_tool_identifier : Option Text → Bool
is_tool_identifier none = false
is_tool_identifier (some k) =
    contains (texts ("name" ∷ "type" ∷ "namespace" ∷ "id" ∷ "$id" ∷ "$ref" ∷ [])) k

unfoldable pub tool_string : FieldPath → Option Text → Targets
tool_string path key =
    if is_tool_identifier key
    then []
    else new_target path
        (if is_text key (bytes "description")
          then FieldClass.tool_description
          else FieldClass.tool_schema_text)
        RewriteMode.block_only
      ∷ []

unfoldable mutual
  pub collect_tool_value : Value → FieldPath → Option Text → Targets
  collect_tool_value (Value.string s) path key = tool_string path key
  collect_tool_value (Value.array vs) path key = collect_tool_values vs 0 path key
  collect_tool_value (Value.object ms) path key = collect_tool_members ms path
  collect_tool_value Value.null path key = []
  collect_tool_value (Value.boolean b) path key = []
  collect_tool_value (Value.number n) path key = []

  pub collect_tool_values : Values → ℕ → FieldPath → Option Text → Targets
  collect_tool_values Values.nil i path key = []
  collect_tool_values (Values.cons v vs) i path key =
      collect_tool_value v (path ++ PathSegment.index i ∷ []) key
      ++ collect_tool_values vs (i + 1) path key

  pub collect_tool_members : Members → FieldPath → Targets
  collect_tool_members Members.end path = []
  collect_tool_members (Members.member k v ms) path =
      collect_tool_value v (path ++ PathSegment.key k ∷ []) (some k) ++ collect_tool_members ms path

unfoldable mutual
  pub collect_all_strings : Value → FieldPath → FieldClass → Targets
  collect_all_strings (Value.string s) path class =
      new_target path class RewriteMode.block_only ∷ []
  collect_all_strings (Value.array vs) path class = collect_all_values vs 0 path class
  collect_all_strings (Value.object ms) path class = collect_all_members ms path class
  collect_all_strings Value.null path class = []
  collect_all_strings (Value.boolean b) path class = []
  collect_all_strings (Value.number n) path class = []

  pub collect_all_values : Values → ℕ → FieldPath → FieldClass → Targets
  collect_all_values Values.nil i path class = []
  collect_all_values (Values.cons v vs) i path class =
      collect_all_strings v (path ++ PathSegment.index i ∷ []) class
      ++ collect_all_values vs (i + 1) path class

  pub collect_all_members : Members → FieldPath → FieldClass → Targets
  collect_all_members Members.end path class = []
  collect_all_members (Members.member k v ms) path class =
      collect_all_strings v (path ++ PathSegment.key k ∷ []) class
      ++ collect_all_members ms path class

-- The string case of `collect_untracked_strings`.
unfoldable pub track : FieldPath → Targets → Targets
track path targets =
    if any (λ t. path_eq t.path path) targets
    then targets
    else targets ++ new_target path FieldClass.structural_metadata RewriteMode.block_only ∷ []

-- The targets so far are the accumulator.
unfoldable mutual
  pub collect_untracked_strings : Value → FieldPath → Targets → Targets
  collect_untracked_strings (Value.string s) path targets = track path targets
  collect_untracked_strings (Value.array vs) path targets =
      collect_untracked_values vs 0 path targets
  collect_untracked_strings (Value.object ms) path targets =
      collect_untracked_members ms path targets
  collect_untracked_strings Value.null path targets = targets
  collect_untracked_strings (Value.boolean b) path targets = targets
  collect_untracked_strings (Value.number n) path targets = targets

  pub collect_untracked_values : Values → ℕ → FieldPath → Targets → Targets
  collect_untracked_values Values.nil i path targets = targets
  collect_untracked_values (Values.cons v vs) i path targets =
      collect_untracked_values vs (i + 1) path
        (collect_untracked_strings v (path ++ PathSegment.index i ∷ []) targets)

  pub collect_untracked_members : Members → FieldPath → Targets → Targets
  collect_untracked_members Members.end path targets = targets
  collect_untracked_members (Members.member k v ms) path targets =
      collect_untracked_members ms path (
        collect_untracked_strings v (path ++ PathSegment.key k ∷ [])
          (targets ++ structural_literal k ∷ []))
