-- ===== src/Resolver/Samples.antt =====
-- A small repository, and what the resolver concludes about it.
use my_kg_codebase.Prelude.{
  ℕ, ◌≡◌, refl, Bool, ◌&&◌, ◌||◌, Option, none, some, List, [], ◌∷◌, ◌++◌, leb, ◌==◌, if◌then◌else◌,
}
use my_kg_codebase.Prelude.Text.{Text, codes, text_eq, contains, starts_with, text_lt}
use my_kg_codebase.Ir.{FileIr, CallIr, InheritanceIr, ReceiverKind, parsed}
use my_kg_codebase.Resolver.Names.{
  root_of, has_dot, rest_of, lexical_candidates, or_else, split_dots, import_bindings,
}
use my_kg_codebase.Resolver.Refs.{SymbolRef, sort_refs, by_key, insert_ref}
use my_kg_codebase.Resolver.Index.{ResolverIndex, OwnerEntry, in_memory_index}
use my_kg_codebase.Resolver.Mro.{
  MroCache, mro, cache_limit, cache_max_length, compute_mro, parent_mros, cache_mro,
}
use my_kg_codebase.Resolver.Calls.Resolution.{inherited_method, super_method, targeted}
use my_kg_codebase.Resolver.Calls.Candidates.{
  Resolver, binding_call_candidates, owner_type_for_call, methods_for_type, type_candidates,
  callable_candidates, direct_candidates, imported_candidates, is_import_reference, annotation_type,
  unquote, is_identifier, is_dotted_identifier,
}
use my_kg_codebase.Resolver.Calls.{
  resolve, resolve_files, resolve_calls, resolve_owned, resolve_direct_self, resolve_attribute,
  resolve_direct, resolve_constructor, resolve_callable, local_type, receiver_name,
}
use my_kg_codebase.Resolver.Calls.Methods.{
  is_direct_receiver_call, resolve_own_method, resolve_super_method, resolve_method, first_methods,
  initializer_for_type,
}
use my_kg_codebase.Resolver.Calls.Receivers.{
  local_receiver_type, visible_bindings, sort_bindings, insert_binding, bind_locals, bound_type,
  call_result_type,
}
use my_kg_codebase.Prelude.Ordered.{store_bounded, move_to_end}
use my_kg_codebase.Resolver.Mro.Reference.{linearize}
use my_kg_codebase.Resolver.Merge.{c3_merge, drop_empty}
use my_kg_codebase.Resolver.Bases.{parent_of, base_states_from_files}
use my_kg_codebase.Prelude.Dict.{lookup, insert, remove}

abbrev pub type_ref : Text → SymbolRef
type_ref name = record {
  key = 116 ∷ name;
  qname = codes "m." ++ name;
  path = codes "m.py";
  kind = codes "type";
  parent_qname = none;
  return_annotation = none;
}

abbrev pub method_ref : Text → Text → SymbolRef
method_ref parent name = record {
  key = parent ++ (46 ∷ name);
  qname = codes "m." ++ (parent ++ (46 ∷ name));
  path = codes "m.py";
  kind = codes "method";
  parent_qname = some (codes "m." ++ parent);
  return_annotation = none;
}

abbrev pub base_fact : Text → Text → InheritanceIr
base_fact child parent = record {
  type_qname = codes "m." ++ child;
  base_name = parent;
  base_qname = some (codes "m." ++ parent);
}

-- self.run() in D.go
abbrev pub call_run : ReceiverKind → Text → CallIr
call_run kind raw = record {
  owner_qname = codes "m.D.go";
  raw_callee = raw;
  callee_name = some (codes "run");
  callee_qname_hint = none;
  receiver_kind = kind;
  start_line = 9;
  start_column = 8;
  end_line = 9;
  end_column = 18;
  ordinal = 0;
}

-- class A: run. class B(A), class C(A): run. class D(B, C): go.
abbrev pub file_m : FileIr
file_m = record {
  path = codes "m.py";
  language = codes "python";
  loc = 10;
  module_qname = codes "m";
  module_init = none;
  parse_status = parsed;
  diagnostics = [];
  imports = [];
  symbols = [];
  inheritance =
      base_fact (codes "B") (codes "A")
      ∷ base_fact (codes "C") (codes "A")
      ∷ base_fact (codes "D") (codes "B")
      ∷ base_fact (codes "D") (codes "C")
      ∷ [];
  calls =
      call_run ReceiverKind.self (codes "self.run")
      ∷ call_run ReceiverKind.super (codes "super().run")
      ∷ [];
  local_bindings = [];
  sql_artifacts = [];
  sql_statements = [];
  sql_object_refs = [];
}

abbrev pub class_refs : List SymbolRef
class_refs =
    type_ref (codes "A") ∷ type_ref (codes "B") ∷ type_ref (codes "C") ∷ type_ref (codes "D") ∷ []

abbrev pub go_ref : SymbolRef
go_ref = method_ref (codes "D") (codes "go")

abbrev pub method_refs : List SymbolRef
method_refs =
    method_ref (codes "A") (codes "run") ∷ method_ref (codes "C") (codes "run") ∷ go_ref ∷ []

abbrev pub go_owners : List OwnerEntry
go_owners = record { path = codes "m.py"; qname = codes "m.D.go"; refs = go_ref ∷ [] } ∷ []

abbrev pub sample_index : ResolverIndex
sample_index = in_memory_index (file_m ∷ []) go_owners method_refs class_refs

-- A parser for the plain expressions of the samples: a name, a dot and a name.
abbrev pub parse_plain : Text → Option (Text × Text)
parse_plain raw = if has_dot raw then some (root_of raw, rest_of raw) else none

abbrev pub ascii_word : ℕ → Bool
ascii_word c =
    (leb b'A' c && leb c b'Z')
    || (leb b'a' c && leb c b'z')
    || (leb b'0' c && leb c b'9')
    || c == b'_'

abbrev pub sample : Resolver
sample = record {
  index = sample_index;
  depth = 5;
  parse_attribute = parse_plain;
  is_word = ascii_word;
}

abbrev pub order_of_d : List Text
order_of_d = codes "m.D" ∷ codes "m.B" ∷ codes "m.C" ∷ codes "m.A" ∷ []

-- What the resolver computes with, opened for the runs on the samples.
unfoldable pub running : Unit {0}
unfolding resolve_files resolve_calls resolve resolve_owned resolve_direct_self resolve_attribute
    resolve_direct resolve_constructor resolve_callable local_type receiver_name
    is_direct_receiver_call resolve_own_method resolve_super_method resolve_method first_methods
    initializer_for_type local_receiver_type visible_bindings sort_bindings insert_binding
    bind_locals bound_type call_result_type binding_call_candidates owner_type_for_call
    methods_for_type type_candidates callable_candidates direct_candidates imported_candidates
    is_import_reference annotation_type unquote is_identifier is_dotted_identifier mro compute_mro
    parent_mros cache_mro cache_limit cache_max_length store_bounded linearize c3_merge
    in_memory_index parent_of base_states_from_files lexical_candidates starts_with or_else
    split_dots import_bindings sort_refs by_key insert_ref text_lt text_eq contains lookup insert
    remove move_to_end root_of has_dot rest_of drop_empty
running = tt

-- What a computation answers, without the cache that it leaves.
abbrev pub answer_of : {A : Type 0} → Option (A × MroCache) → Option A
answer_of none = none
answer_of (some (a, cache)) = some a

mro_of_d : answer_of (mro sample_index 5 [] (codes "m.D") []) ≡ some (some order_of_d)
unfolding running
mro_of_d = refl

-- B has no `run`; C comes before A in the order of D.
resolved_calls :
    answer_of (resolve_files sample (file_m ∷ []) [])
    ≡ some (
        targeted
          (call_run ReceiverKind.self (codes "self.run"))
          (codes "m.py")
          (codes "D.go")
          inherited_method
          (codes "C.run")
        ∷ targeted
            (call_run ReceiverKind.super (codes "super().run"))
            (codes "m.py")
            (codes "D.go")
            super_method
            (codes "C.run")
        ∷ [])
unfolding running
resolved_calls = refl
