-- ===== src/Federation/Facts.antt =====
-- Facts of a catalog and which edges a search may take: _signature_known and the tests of
-- _database_edge_allowed in src/codekg/federation.py, routine_target_kinds of
-- src/codekg/native_ir.py.
use my_kg_codebase.Prelude.{
  ℕ, suc, ◌+◌, Bool, true, false, not, ◌&&◌, ◌||◌, Option, none, some, List, [], ◌∷◌, ◌++◌,
  is_empty, if◌then◌else◌, leb, ltb, ◌==◌, is_some,
}
use my_kg_codebase.Prelude.Text.{Text, codes, text_eq, contains}

-- A fact as the catalog gives it, with the keys that the code reads; none for a key that is
-- missing. Counts and lines are not negative.
pub record Fact : Type 0 where
  pub fact_table : Text
  pub snapshot_alias : Text
  pub path : Text
  pub origin : Option Text
  pub kind : Option Text
  pub routine_kind : Option Text
  pub schema_name : Option Text
  pub name : Option Text
  pub owner_qname : Option Text
  pub object_name : Option Text
  pub receiver_status : Option Text
  pub condition : Option Text
  pub dynamic : Bool
  pub start_line : Option ℕ
  pub owner_line : Option ℕ
  pub arity : Option ℕ
  pub out_arg_count : Option ℕ
  pub default_arg_count : Option ℕ
  pub variadic_arg_count : Option ℕ
  pub argument_types : List Text
  pub arg_types : List Text

-- bool(value)
abbrev pub is_truthy : Option Text → Bool
is_truthy none = false
is_truthy (some text) = not (is_empty text)

-- value == text
abbrev pub is_text : Option Text → Text → Bool
is_text none text = false
is_text (some value) text = text_eq value text

-- a == b, for numbers that can be None
abbrev pub same_number : Option ℕ → Option ℕ → Bool
same_number none none = true
same_number (some a) (some b) = a == b
same_number _ _ = false

-- count or 0
abbrev pub count_or_zero : Option ℕ → ℕ
count_or_zero none = 0
count_or_zero (some n) = n

-- routine_target_kinds
unfoldable pub routine_target_kinds : Option Text → List Text
routine_target_kinds invocation_kind =
    if is_text invocation_kind (codes "function")
    then codes "function" ∷ codes "aggregate" ∷ codes "window" ∷ []
    else if is_text invocation_kind (codes "procedure")
    then codes "procedure" ∷ []
    else []

-- value in texts
abbrev pub is_among : Option Text → List Text → Bool
is_among none texts = false
is_among (some value) texts = contains value texts

-- candidate.get("arity", -1), plus one
abbrev pub arity_plus_one : Option ℕ → ℕ
arity_plus_one none = 0
arity_plus_one (some n) = suc n

-- The comparison of the arities, where `limit` is the candidate's plus one.
unfoldable pub arity_fits : ℕ → ℕ → ℕ → ℕ → Bool
arity_fits limit arity defaults variadic =
    limit == suc arity
    || (leb limit (suc arity + defaults + variadic) && (ltb 0 variadic || leb (suc arity) limit))

-- The arity plus one that a CALL or a function call is compared with; none where the code returns
-- False because it cannot tell.
unfoldable pub call_limit : Fact → Fact → Option ℕ
call_limit evidence candidate =
    if is_text evidence.routine_kind (codes "procedure")
    then elim candidate.out_arg_count [
      | none ↦ none
      | some outs ↦
          if ltb 0 outs && ltb 0 (count_or_zero candidate.default_arg_count)
          then none
          else some (arity_plus_one candidate.arity + outs)
    ]
    else some (arity_plus_one candidate.arity)

unfoldable pub arities_agree : Fact → Fact → ℕ → Bool
unfolding call_limit arity_fits
arities_agree evidence candidate arity = elim (call_limit evidence candidate) [
  | none ↦ false
  | some limit ↦
      arity_fits limit arity (count_or_zero candidate.default_arg_count)
        (count_or_zero candidate.variadic_arg_count)
]

-- _signature_known
unfoldable pub signature_known : Fact → Fact → Bool
unfolding routine_target_kinds arities_agree
signature_known evidence candidate = elim evidence.arity [
  | none ↦ false
  | some arity ↦
      is_among evidence.routine_kind (codes "function" ∷ codes "procedure" ∷ [])
      && is_among candidate.kind (routine_target_kinds evidence.routine_kind)
      && arities_agree evidence candidate arity
      && is_empty evidence.argument_types
      && is_empty evidence.arg_types
      && not (is_truthy candidate.condition)
]

-- An edge of the catalog
pub record Edge : Type 0 where
  pub source_key : Text
  pub target_key : Text
  pub kind : Text

-- f"{value}"
abbrev pub shown : Option Text → Text
shown none = codes "None"
shown (some text) = text

unfoldable pub is_usable_evidence : Fact → Bool
is_usable_evidence evidence =
    text_eq evidence.fact_table (codes "evidence")
    && is_text evidence.origin (codes "routine_body")
    && not evidence.dynamic
    && not (is_truthy evidence.condition)
    && is_some evidence.arity

unfoldable pub is_usable_routine : Fact → Bool
is_usable_routine routine =
    text_eq routine.fact_table (codes "routines") && not (is_truthy routine.condition)

-- The routine is the one whose body holds the evidence.
unfoldable pub is_owner : Fact → Fact → Bool
is_owner routine evidence =
    text_eq routine.snapshot_alias evidence.snapshot_alias
    && text_eq routine.path evidence.path
    && is_some routine.start_line
    && same_number routine.start_line evidence.owner_line
    && is_text evidence.owner_qname (shown routine.schema_name ++ b'.' ∷ shown routine.name)

-- The tests of _database_edge_allowed on the two facts of an edge, which `has_evidence` tells.
unfoldable pub facts_allow : Bool → Option Fact → Option Fact → Bool
unfolding is_usable_evidence is_usable_routine is_owner signature_known
facts_allow has_evidence none target = false
facts_allow has_evidence (some source) none = false
facts_allow true (some source) (some target) =
    is_usable_evidence target && is_usable_routine source && is_owner source target
facts_allow false (some source) (some target) =
    is_usable_evidence source && is_usable_routine target && signature_known source target

abbrev pub is_native_kind : Text → Bool
is_native_kind kind = contains kind (codes "BINDS_TO_NATIVE" ∷ codes "CALLS_NATIVE" ∷ [])

abbrev pub is_routine_kind : Text → Bool
is_routine_kind kind = contains kind (codes "HAS_EVIDENCE" ∷ codes "INVOKES_ROUTINE" ∷ [])
