-- ===== src/Federation/Resolve.antt =====
-- From the evidence of an application to the routine of a database: _resolve of
-- src/codekg/federation.py.
use my_kg_codebase.Prelude.{
  Bool, true, false, not, ◌&&◌, ◌||◌, ℕ, Option, none, some, List, [], ◌∷◌, ◌++◌, map, any,
  is_empty, if◌then◌else◌,
}
use my_kg_codebase.Prelude.Text.{Text, codes}
use my_kg_codebase.Federation.Facts.{Fact, is_truthy, is_text, is_among, signature_known}
use my_kg_codebase.Federation.Session.{Clock, Action, ◌>>=◌, pure, query}

pub data ResolveStatus : Type 0 where
  unresolved dynamic documentation candidate_overflow receiver_unverified conditional exact
        ambiguous :
      ResolveStatus

-- The arguments of routine_candidates that differ between its calls
pub record RoutineQuery : Type 0 where
  pub name : Text
  pub arity : Option ℕ
  pub routine_kind : Option Text
  pub schema_name : Option Text
  pub local_aliases : List Text
  pub visible_aliases : List Text
  pub search_path : List Text

pub record Candidates : Type 0 where
  pub items : List Fact
  pub truncated : Bool

-- What _resolve uses of an open graph: its aliases and its catalog.
pub record Side : Type 0 where
  pub snapshot_aliases : List Text
  pub routine_candidates : RoutineQuery → Candidates

pub record Context : Type 0 where
  pub visible_extensions : List Text
  pub search_path : List Text

-- The result, with the graph that the candidates are of. What _metadata and _source_segment add
-- of the graphs is left out.
pub record Resolution : Type 0 where
  pub status : ResolveStatus
  pub candidates : List Fact
  pub of_application : Bool
  pub truncated : Bool
  pub assumptions : List Text

abbrev pub concluded : ResolveStatus → Resolution
concluded status = record {
  status = status;
  candidates = [];
  of_application = true;
  truncated = false;
  assumptions = [];
}

-- origin == "python_execute" and evidence.get("receiver_status") != "verified"
abbrev pub is_unverified : Fact → Bool
is_unverified evidence =
    is_text evidence.origin (codes "python_execute")
    && not (is_text evidence.receiver_status (codes "verified"))

-- evidence.get("condition") or any(c.get("condition") for c in candidates)
abbrev pub is_conditional : Fact → List Fact → Bool
is_conditional evidence candidates =
    is_truthy evidence.condition || any (λ c. is_truthy c.condition) candidates

-- len(candidates) == 1 and _signature_known(evidence, candidates[0])
unfoldable pub is_single : Fact → List Fact → Bool
is_single evidence [] = false
is_single evidence (candidate ∷ []) = signature_known evidence candidate
is_single evidence (candidate ∷ next ∷ candidates) = false

unfoldable pub classify : Fact → Candidates → ResolveStatus
unfolding is_single
classify evidence found =
    if found.truncated
    then candidate_overflow
    else if is_unverified evidence
    then receiver_unverified
    else if is_conditional evidence found.items
    then conditional
    else if is_single evidence found.items
    then exact
    else ambiguous

-- The result for the schema where candidates are found
unfoldable pub settle : Fact → Bool → Candidates → Resolution
settle evidence of_application found = record {
  status = classify evidence found;
  candidates = found.items;
  of_application = of_application;
  truncated = found.truncated;
  assumptions =
      if not found.truncated && is_unverified evidence
      then codes "execute receiver is not a verified DB-API object" ∷ []
      else [];
}

-- Candidates settle the matter; without any, the search goes on.
unfoldable pub settle_or : Fact → Bool → Action Resolution → Candidates → Action Resolution
settle_or evidence of_application further found = elim (is_empty found.items) [
  | Bool.true ↦ further
  | Bool.false ↦ pure (settle evidence of_application found)
]

-- [schema] if schema else list(context.search_path) or [None]
unfoldable pub schemas_of : Context → Option Text → List (Option Text)
schemas_of context schema =
    if is_truthy schema
    then schema ∷ []
    else if is_empty context.search_path
    then none ∷ []
    else map some context.search_path

-- tuple([scope_schema]) if scope_schema else ()
abbrev pub scope_path : Option Text → List Text
scope_path none = []
scope_path (some schema) = if is_empty schema then [] else schema ∷ []

abbrev pub own_query : Side → Fact → Text → Option Text → RoutineQuery
own_query app evidence name scope = record {
  name = name;
  arity = evidence.arity;
  routine_kind = evidence.routine_kind;
  schema_name = scope;
  local_aliases = app.snapshot_aliases;
  visible_aliases = [];
  search_path = [];
}

abbrev pub database_query : Context → Text → Fact → Text → Option Text → RoutineQuery
database_query context postgres_alias evidence name scope = record {
  name = name;
  arity = evidence.arity;
  routine_kind = evidence.routine_kind;
  schema_name = scope;
  local_aliases = [];
  visible_aliases = postgres_alias ∷ context.visible_extensions;
  search_path = scope_path scope;
}

-- The final assumption of conditional evidence
unfoldable pub with_condition : Fact → Resolution → Resolution
with_condition evidence result = record result {
  assumptions =
      if is_truthy evidence.condition
      then result.assumptions ++ codes "conditional evidence is not an asserted execution path" ∷ []
      else result.assumptions;
}

-- `postgres_alias` is the alias of the first snapshot of the database graph in the role of
-- postgres, which the code takes to be there.
module _ (app db : Side) (clock : Clock) (context : Context) (postgres_alias : Text)
    (evidence : Fact) where
  -- The loop over the schemas
  unfoldable pub resolve_schemas : Text → List (Option Text) → Action Resolution
  resolve_schemas name [] = pure (concluded unresolved)
  resolve_schemas name (scope ∷ schemas) =
      query clock (app.routine_candidates (own_query app evidence name scope))
      >>= settle_or evidence true (
          query clock
            (db.routine_candidates (database_query context postgres_alias evidence name scope))
          >>= settle_or evidence false (resolve_schemas name schemas))

  -- The evidence of a routine: what is documentation is not looked for.
  unfoldable pub resolve_name : Text → Action Resolution
  resolve_name name =
      if is_among evidence.origin (codes "markdown_sql" ∷ codes "markdown_mention" ∷ [])
      then pure (concluded documentation)
      else resolve_schemas name (schemas_of context evidence.schema_name) >>= λ result.
          pure (with_condition evidence result)

  -- The test of dynamic and of object_name
  unfoldable pub resolve_object : Bool → Option Text → Action Resolution
  resolve_object true object_name = pure (concluded dynamic)
  resolve_object false none = pure (concluded unresolved)
  resolve_object false (some name) =
      if is_empty name then pure (concluded unresolved) else resolve_name name

  -- _resolve
  unfoldable pub resolve_evidence : Action Resolution
  unfolding resolve_object
  resolve_evidence = resolve_object evidence.dynamic evidence.object_name
