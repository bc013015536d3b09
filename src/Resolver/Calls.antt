-- ===== src/Resolver/Calls.antt =====
-- `_Resolver.resolve` of src/codekg/resolver.py: the conclusion about each call site.
pub mod Sites
pub mod Resolution
pub mod Candidates
pub mod Receivers
pub mod Decide
pub mod Methods
pub mod Shape
pub mod Coherent
pub mod Total
pub mod Lossless
pub mod Attribute
use my_kg_codebase.Prelude.{
  ℕ, Bool, true, false, ◌&&◌, Option, none, some, List, [], ◌∷◌, ◌++◌, map, tail, if◌then◌else◌,
  ◌==◌,
}
use my_kg_codebase.Prelude.Text.{Text, codes, text_eq, contains, starts_with}
use my_kg_codebase.Ir.{
  CallIr, FileIr, RepositoryIr, ReceiverKind, bare, self, cls, super, attribute,
}
use my_kg_codebase.Resolver.Names.{split_dots}
use my_kg_codebase.Resolver.Refs.{SymbolRef}
use my_kg_codebase.Resolver.Index.{ResolverIndex}
use my_kg_codebase.Resolver.Mro.{Cached, ◌>>=◌, pure, mro}
use Resolution.{
  Status, owner_unresolved, owner_ambiguous, unresolved, ambiguous, external, dynamic,
  mro_incomplete, exact_local, exact_import, self_direct, cls_direct, inherited_method,
  super_method, local_receiver, local_receiver_inherited, constructor_exact_local,
  constructor_exact_import, constructor_ambiguous, CallResolution, concluded, targeted,
}
use Candidates.{
  Resolver, type_candidates, callable_candidates, methods_for_type, imported_candidates,
  direct_candidates, is_import_reference, owner_type_for_call, is_identifier,
}
use Receivers.{local_receiver_type}
use Decide.{
  keys, decide, direct_status, builds, chained, Initializer, no_initializer, initializer_of,
}
use Methods.{
  initializer_for_type, resolve_method, is_direct_receiver_call, resolve_own_method,
  resolve_super_method,
}

module _ (r : Resolver) where
  -- The last lines of `_resolve_direct`: no candidate is known.
  abbrev pub no_candidate : FileIr → CallIr → SymbolRef → Status
  no_candidate file call owner =
      if chained call.receiver_kind
      then dynamic
      else if is_import_reference r file call
      then external
      else unresolved

  -- `_resolve_direct` on the callables that the candidates name.
  unfoldable pub resolve_callable : FileIr → CallIr → SymbolRef → CallResolution
  resolve_callable file call owner =
      elim (callable_candidates r (direct_candidates r file call owner)) [
        | [] ↦ concluded call file.path (some owner.key) (no_candidate file call owner) []
        | ref ∷ refs ↦
            decide call file.path owner.key
              (if contains ref.qname (imported_candidates r file call)
                then exact_import
                else exact_local)
              (ref ∷ refs)
      ]

  -- `_resolve_direct` on the one type that is constructed.
  unfoldable pub resolve_constructor :
      FileIr → CallIr → SymbolRef → SymbolRef → Cached CallResolution
  resolve_constructor file call owner type_ref = do
    init ← initializer_for_type r type_ref.qname
    pure
        (record (concluded call file.path (some owner.key)
          (if contains type_ref.qname (imported_candidates r file call)
            then constructor_exact_import
            else constructor_exact_local)
          (type_ref.key ∷ [])) {
            construction_target_key = some type_ref.key;
            initializer_candidate_keys = init.candidates;
            initializer_target_key = init.target;
            initializer_status = init.found;
          })

  -- _resolve_direct
  unfoldable pub resolve_direct : FileIr → CallIr → SymbolRef → Cached CallResolution
  resolve_direct file call owner =
      if builds call.receiver_kind
      then elim (type_candidates r (direct_candidates r file call owner)) [
        | [] ↦ pure (resolve_callable file call owner)
        | ref ∷ refs ↦ elim refs [
          | [] ↦ resolve_constructor file call owner ref
          | other ∷ more ↦ pure (
              concluded call file.path (some owner.key) constructor_ambiguous
                (keys (ref ∷ other ∷ more)))
        ]
      ]
      else pure (resolve_callable file call owner)

  -- The receiver's name, where the callee is one identifier, a dot and another.
  unfoldable pub receiver_name : Text → Option Text
  receiver_name raw = elim (split_dots raw) [
    | [] ↦ none
    | value ∷ rest ↦ elim rest [
      | [] ↦ none
      | attr ∷ more ↦
          if is_identifier r value && is_identifier r attr
          then elim more [ [] ↦ some value | part ∷ parts ↦ none ]
          else none
    ]
  ]

  -- `_resolve_local_receiver`: the receiver's type, if it is known.
  unfoldable pub local_type : FileIr → CallIr → SymbolRef → Option Text
  local_type file call owner = elim (receiver_name call.raw_callee) [
    | none ↦ none
    | some name ↦ local_receiver_type r file call owner name
  ]

  -- _resolve_local_receiver, and `_resolve_direct` where it returns None
  unfoldable pub resolve_attribute : FileIr → CallIr → SymbolRef → Cached CallResolution
  resolve_attribute file call owner = elim (local_type file call owner) [
    | none ↦ resolve_direct file call owner
    | some type_qname ↦
        resolve_method r call file.path owner.key local_receiver local_receiver_inherited type_qname
  ]

  unfoldable pub resolve_direct_self : FileIr → CallIr → SymbolRef → Text → Cached CallResolution
  resolve_direct_self file call owner receiver =
      if is_direct_receiver_call r call receiver
      then resolve_own_method r file call owner
      else pure (concluded call file.path (some owner.key) dynamic [])

  -- The dispatch of `resolve` on the kind of the receiver.
  unfoldable pub resolve_owned : FileIr → CallIr → SymbolRef → ReceiverKind → Cached CallResolution
  resolve_owned file call owner self = resolve_direct_self file call owner (codes "self")
  resolve_owned file call owner cls = resolve_direct_self file call owner (codes "cls")
  resolve_owned file call owner super = resolve_super_method r file call owner
  resolve_owned file call owner attribute = resolve_attribute file call owner
  resolve_owned file call owner _ = resolve_direct file call owner

  -- resolve
  unfoldable pub resolve : FileIr → CallIr → Cached CallResolution
  resolve file call = elim (r.index.owners file.path call.owner_qname) [
    | [] ↦ pure (concluded call file.path none owner_unresolved [])
    | owner ∷ rest ↦ elim rest [
      | [] ↦ resolve_owned file call owner call.receiver_kind
      | other ∷ more ↦
          pure (concluded call file.path none owner_ambiguous (keys (owner ∷ other ∷ more)))
    ]
  ]

  -- resolver.resolve(file, call) for file in repo.files for call in file.calls
  unfoldable pub resolve_calls : FileIr → List CallIr → Cached (List CallResolution)
  resolve_calls file [] = pure []
  resolve_calls file (call ∷ calls) = do
    first ← resolve file call
    rest ← resolve_calls file calls
    pure (first ∷ rest)

  unfoldable pub resolve_files : List FileIr → Cached (List CallResolution)
  resolve_files [] = pure []
  resolve_files (file ∷ files) = do
    first ← resolve_calls file file.calls
    rest ← resolve_files files
    pure (first ++ rest)
