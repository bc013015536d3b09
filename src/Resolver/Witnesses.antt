-- ===== src/Resolver/Witnesses.antt =====
-- The theorems on src/codekg/resolver.py, applied to the sample repository.
use mathlib.Core.List.{Perm}
use my_kg_codebase.Prelude.{
  ◌++◌, filter, ◌≡◌, ◌≢◌, refl, Option, none, some, List, [], ◌∷◌, map, tail, arith,
}
use my_kg_codebase.Prelude.Text.{Text, codes}
use my_kg_codebase.Ir.{ReceiverKind}
use my_kg_codebase.Resolver.Names.{lexical_scopes}
use my_kg_codebase.Resolver.Names.Scopes.{EndedWalk, lexical_scopes-EndedWalk}
use my_kg_codebase.Resolver.Refs.{SymbolRef, flat_map, get_list, group_by_qname}
use my_kg_codebase.Resolver.Refs.Groups.{named, IsSorted, qname_of, group_by_qname-groups}
use my_kg_codebase.Resolver.Merge.{c3_merge}
use my_kg_codebase.Resolver.Merge.Round.{distinct}
use my_kg_codebase.Resolver.Merge.Sound.{IsMerge, c3_merge-IsMerge}
use my_kg_codebase.Resolver.Merge.Complete.{c3_merge_complete}
use my_kg_codebase.Resolver.Bases.{memory_base_state, sqlite_base_state}
use my_kg_codebase.Resolver.Bases.Rows.{Agree, base_state-Agree}
use my_kg_codebase.Resolver.Index.{in_memory_index}
use my_kg_codebase.Resolver.Index.Sqlite.{
  AreReadBack, sqlite_index, is_callable_kind, is_type_kind, sqlite_index-in_memory_index,
}
use my_kg_codebase.Resolver.Mro.{MroCache, mro}
use my_kg_codebase.Resolver.Mro.Correct.{Answers, CacheIsRight, mro-Answers}
use my_kg_codebase.Resolver.Mro.Contract.{IsMro, Linear-IsMro}
use my_kg_codebase.Resolver.Mro.Total.{mro_total}
use my_kg_codebase.Resolver.Mro.Bounded.{IsBounded, mro-IsBounded}
use my_kg_codebase.Resolver.Calls.Resolution.{CallResolution, Status, targeted}
use my_kg_codebase.Resolver.Calls.Decide.{keys}
use my_kg_codebase.Resolver.Calls.Methods.{first_methods}
use my_kg_codebase.Resolver.Calls.Shape.{IsCoherent}
use my_kg_codebase.Resolver.Calls.Coherent.{resolve-IsCoherent}
use my_kg_codebase.Resolver.Calls.Lossless.{Covers, sites}
use my_kg_codebase.Resolver.Calls.Sites.{index-Lists, resolve_call_sites, resolve_call_sites_total}
use my_kg_codebase.Resolver.Calls.Attribute.{LooksUp, resolve_self-lookup, resolve_super-lookup}
use my_kg_codebase.Resolver.Samples.{
  file_m, class_refs, method_refs, go_ref, go_owners, sample_index, sample, order_of_d, call_run,
  parse_plain, ascii_word, running,
}

-- The cache that a computation leaves.
abbrev left_by : {A : Type 0} → Option (A × MroCache) → MroCache
left_by none = []
left_by (some (a, cache)) = cache

abbrev d_cache : MroCache
d_cache = left_by (mro sample_index 5 [] (codes "m.D") [])

mro-Answers_example :
    Answers sample_index (codes "m.D") (some order_of_d) × CacheIsRight sample_index d_cache
unfolding running
mro-Answers_example = mro-Answers sample_index 5 (codes "m.D") [] d_cache (some order_of_d) tt refl

resolve_call_sites_total_example :
    Covers
      (flat_map (λ f. sites f f.calls) (file_m ∷ []))
      (resolve_call_sites parse_plain ascii_word (file_m ∷ []) go_owners method_refs class_refs)
resolve_call_sites_total_example =
    resolve_call_sites_total parse_plain ascii_word (file_m ∷ []) go_owners method_refs class_refs

Linear-IsMro_example : IsMro sample_index (codes "m.D") order_of_d
unfolding running
Linear-IsMro_example = Linear-IsMro sample_index (codes "m.D") order_of_d (5, refl)

abbrev self_run : CallResolution
self_run =
    targeted (call_run ReceiverKind.self (codes "self.run")) (codes "m.py") (codes "D.go")
      Status.inherited_method (codes "C.run")

abbrev super_run : CallResolution
super_run =
    targeted (call_run ReceiverKind.super (codes "super().run")) (codes "m.py") (codes "D.go")
      Status.super_method (codes "C.run")

resolve_self-lookup_example :
    self_run.candidate_keys ≡ keys (first_methods sample order_of_d (some (codes "run")))
unfolding running
resolve_self-lookup_example =
    resolve_self-lookup sample file_m (call_run ReceiverKind.self (codes "self.run")) go_ref
      (codes "m.D") order_of_d [] d_cache self_run (refl, refl, refl, refl) (5, refl) tt refl

resolve_super-lookup_example :
    LooksUp sample (tail order_of_d) (some (codes "run")) Status.super_method super_run
unfolding running
resolve_super-lookup_example =
    resolve_super-lookup sample file_m (call_run ReceiverKind.super (codes "super().run")) go_ref
      (codes "m.D") order_of_d [] d_cache super_run (refl, refl, refl, refl) (5, refl) tt refl

resolve-IsCoherent_example :
    IsCoherent file_m (call_run ReceiverKind.self (codes "self.run")) self_run
unfolding running
resolve-IsCoherent_example =
    resolve-IsCoherent sample file_m (call_run ReceiverKind.self (codes "self.run")) [] d_cache
      self_run refl

-- The orders of B and C, and the bases of D.
abbrev above_d : List (List Text)
above_d =
    (codes "B" ∷ codes "A" ∷ []) ∷ (codes "C" ∷ codes "A" ∷ []) ∷ (codes "B" ∷ codes "C" ∷ []) ∷ []

abbrev merged_d : List Text
merged_d = codes "B" ∷ codes "C" ∷ codes "A" ∷ []

merged_d-IsMerge : IsMerge above_d merged_d
unfolding running
merged_d-IsMerge = c3_merge-IsMerge above_d merged_d refl

c3_merge-IsMerge_example : IsMerge above_d merged_d
unfolding running
c3_merge-IsMerge_example = c3_merge-IsMerge above_d merged_d refl

c3_merge_complete_example : c3_merge above_d ≢ none
c3_merge_complete_example = c3_merge_complete above_d merged_d merged_d-IsMerge

base_state-Agree_example :
    Agree
      (memory_base_state sample_index.types (file_m ∷ []) (codes "m.D"))
      (sqlite_base_state sample_index.types (file_m ∷ []) (codes "m.D"))
unfolding running distinct
base_state-Agree_example = base_state-Agree sample_index.types (file_m ∷ []) (codes "m.D") refl refl

mro_total_example : mro sample_index 5 [] (codes "m.D") [] ≢ none
mro_total_example =
    mro_total sample_index (map qname_of class_refs)
      (index-Lists (file_m ∷ []) go_owners method_refs class_refs) (codes "m.D") []

lexical_scopes-EndedWalk_example :
    EndedWalk
      (codes "m.f.<locals>.g")
      (codes "m")
      15
      (lexical_scopes (codes "m.f.<locals>.g") (codes "m"))
lexical_scopes-EndedWalk_example = lexical_scopes-EndedWalk (codes "m.f.<locals>.g") (codes "m")

mro-IsBounded_example : IsBounded d_cache
unfolding running
mro-IsBounded_example =
    mro-IsBounded sample_index 5 [] (codes "m.D") [] d_cache (some order_of_d) (ground arith) refl

group_by_qname-groups_example :
    Perm (get_list (codes "m.B") (group_by_qname class_refs)) (named (codes "m.B") class_refs)
    × IsSorted (get_list (codes "m.B") (group_by_qname class_refs))
group_by_qname-groups_example = group_by_qname-groups (codes "m.B") class_refs

abbrev sample_symbols : List SymbolRef
sample_symbols = class_refs ++ method_refs

sqlite_index-in_memory_index_example :
    AreReadBack
      ((in_memory_index
          (file_m ∷ [])
          go_owners
          (filter (λ s. is_callable_kind s.kind) sample_symbols)
          (filter (λ s. is_type_kind s.kind) sample_symbols)).types
        (codes "m.B"))
      ((sqlite_index sample_symbols (file_m ∷ []) []).types (codes "m.B"))
    × AreReadBack
        ((in_memory_index
            (file_m ∷ [])
            go_owners
            (filter (λ s. is_callable_kind s.kind) sample_symbols)
            (filter (λ s. is_type_kind s.kind) sample_symbols)).callables
          (codes "m.B"))
        ((sqlite_index sample_symbols (file_m ∷ []) []).callables (codes "m.B"))
sqlite_index-in_memory_index_example =
    sqlite_index-in_memory_index sample_symbols (file_m ∷ []) [] go_owners (codes "m.B")
