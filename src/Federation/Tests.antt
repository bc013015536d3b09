-- ===== src/Federation/Tests.antt =====
-- Two small graphs, and the results at them: src/codekg/federation.py.
use my_kg_codebase.Prelude.{
  ◌≤◌, ◌≡◌, refl, true, false, none, some, List, [], ◌∷◌, if◌then◌else◌, arith, Bool-cases, inl,
  inr,
}
use my_kg_codebase.Prelude.Text.{Text, codes, text_eq, contains}
use my_kg_codebase.Federation.Facts.{Fact, Edge, signature_known}
use my_kg_codebase.Federation.Session.{Page, Catalog, Clock, Session}
use my_kg_codebase.Federation.Paths.{bounded_paths}
use my_kg_codebase.Federation.Sound.{Yields}
use my_kg_codebase.Federation.Search.{IsAnswer}
use my_kg_codebase.Federation.Holds.{HasShortPages, InBudget}
use my_kg_codebase.Federation.Found.{bounded_paths-IsAnswer}
use my_kg_codebase.Federation.Resolve.{Side, Context, resolve_evidence}
use my_kg_codebase.Federation.Resolved.{IsGrounded, resolve_evidence-IsGrounded}
use my_kg_codebase.Prelude.Occurs.{Occurs}
use my_kg_codebase.Federation.Reach.{CallGraph, Reached, python_reachable}
use my_kg_codebase.Federation.Chains.{IsReached}
use my_kg_codebase.Federation.Complete.{HasAllOwners, python_reachable-HasAllOwners}

abbrev native_edge : Text → Text → Edge
native_edge source target = record {
  source_key = source;
  target_key = target;
  kind = codes "CALLS_NATIVE";
}

abbrev page_of : List Edge → Page
page_of items = record { items = items; truncated = false }

-- a calls b and c, b calls d, c calls a and d.
abbrev square_page : Text → Page
square_page key =
    if text_eq key (codes "a")
    then page_of (native_edge (codes "a") (codes "b") ∷ native_edge (codes "a") (codes "c") ∷ [])
    else if text_eq key (codes "b")
    then page_of (native_edge (codes "b") (codes "d") ∷ [])
    else if text_eq key (codes "c")
    then page_of (native_edge (codes "c") (codes "a") ∷ native_edge (codes "c") (codes "d") ∷ [])
    else page_of []

abbrev square : Catalog
square = record { fact = λ key. none; neighbors = square_page }

abbrev patient : Clock
patient = record { expired = λ n. false; interrupted = λ n. false }

abbrev new_session : Session
new_session = record { facts = []; readings = 0; visited = 0; edges = 0 }

square-HasShortPages : HasShortPages square
square-HasShortPages key = elim (Bool-cases (text_eq key (codes "a"))) [
  | inl e ↦ rw e (omega arith)
  | inr e ↦ elim (Bool-cases (text_eq key (codes "b"))) [
    | inl f ↦ rw (e, f) (omega arith)
    | inr f ↦ elim (Bool-cases (text_eq key (codes "c"))) [
      | inl g ↦ rw (e, f, g) (omega arith)
      | inr g ↦ rw (e, f, g) (omega arith)
    ]
  ]
]

bounded_paths-IsAnswer_example :
    Yields patient
      (λ answer t. IsAnswer square (codes "a") (codes "d") 8 answer × InBudget t)
      (bounded_paths square patient (codes "a") (codes "d") 8 new_session)
bounded_paths-IsAnswer_example =
    bounded_paths-IsAnswer square patient (codes "a") (codes "d") 8 square-HasShortPages new_session
      (omega arith, omega arith)

-- A fact with nothing but a name and a number of arguments.
abbrev bare_fact : Text → Text → Fact
bare_fact table name = record {
  fact_table = table;
  snapshot_alias = codes "app";
  path = codes "a.py";
  origin = some (codes "python_literal");
  kind = some (codes "function");
  routine_kind = some (codes "function");
  schema_name = none;
  name = some name;
  owner_qname = none;
  object_name = some name;
  receiver_status = none;
  condition = none;
  dynamic = false;
  start_line = none;
  owner_line = none;
  arity = some 2;
  out_arg_count = none;
  default_arg_count = none;
  variadic_arg_count = none;
  argument_types = [];
  arg_types = [];
}

-- A routine with two parameters, one of them with a default, takes one argument.
takes_default :
    signature_known
      (record (bare_fact (codes "evidence") (codes "f")) { arity = some 1 })
      (record (bare_fact (codes "routines") (codes "f")) { default_arg_count = some 1 })
    ≡ true
unfolding signature_known text_eq contains
takes_default = refl

abbrev no_routines : Side
no_routines = record {
  snapshot_aliases = codes "app" ∷ [];
  routine_candidates = λ query. record { items = []; truncated = false };
}

abbrev one_routine : Side
one_routine = record {
  snapshot_aliases = codes "pg" ∷ [];
  routine_candidates =
      λ query. record { items = bare_fact (codes "routines") (codes "f") ∷ []; truncated = false };
}

abbrev public_context : Context
public_context = record { visible_extensions = []; search_path = codes "public" ∷ [] }

resolve_evidence-IsGrounded_example :
    Yields patient
      (λ r t.
        IsGrounded no_routines one_routine public_context
          (codes "pg")
          (bare_fact (codes "evidence") (codes "f"))
          r)
      (resolve_evidence no_routines one_routine patient public_context
        (codes "pg")
        (bare_fact (codes "evidence") (codes "f"))
        new_session)
resolve_evidence-IsGrounded_example =
    resolve_evidence-IsGrounded no_routines one_routine patient public_context (codes "pg")
      (bare_fact (codes "evidence") (codes "f")) new_session

abbrev calls_next : CallGraph Text
calls_next = record {
  python_owner = λ key. some key;
  rows = λ key.
      if text_eq key (codes "f")
      then record { key = some (codes "g"); path = none; line = some 3; column = none } ∷ []
      else [];
}

python_reachable-HasAllOwners_example :
    Yields patient
      (λ answer t.
        (((found : Reached Text) → Occurs found answer.0 → IsReached calls_next (codes "f") 8 found)
          × (t.visited ≤ 1000)
          × (t.edges ≤ 10000))
        × (answer.1 ≡ false → HasAllOwners calls_next (codes "f") answer.0))
      (python_reachable calls_next patient 8 (codes "f") new_session)
python_reachable-HasAllOwners_example =
    python_reachable-HasAllOwners calls_next patient (codes "f") 8 new_session (omega arith)
      (omega arith)
