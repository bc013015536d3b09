-- ===== src/Resolver/Calls/Sites.antt =====
-- resolve_call_sites of src/codekg/resolver.py: the resolution of a whole repository.
use my_kg_codebase.Prelude.{ℕ, suc, ◌≡◌, refl, ap, Bool, Option, List, [], ◌∷◌, map, length}
use my_kg_codebase.Prelude.Text.{Text}
use my_kg_codebase.Ir.{FileIr}
use my_kg_codebase.Resolver.Refs.{SymbolRef, flat_map}
use my_kg_codebase.Resolver.Refs.Groups.{group_by_qname-listed, qname_of}
use my_kg_codebase.Resolver.Index.{OwnerEntry, in_memory_index}
use my_kg_codebase.Resolver.Mro.{MroCache}
use my_kg_codebase.Resolver.Mro.Total.{Lists}
use my_kg_codebase.Resolver.Calls.Resolution.{CallResolution}
use my_kg_codebase.Resolver.Calls.Candidates.{Resolver}
use my_kg_codebase.Resolver.Calls.{resolve_files}
use my_kg_codebase.Resolver.Calls.Lossless.{Covers, sites, resolve_files_total}

length-qnames : (refs : List SymbolRef) → suc (length refs) ≡ suc (length (map qname_of refs))
length-qnames [] = refl
length-qnames (r ∷ refs) = ap suc (length-qnames refs)

-- The declared types are among the references that the index is built of.
pub index-Lists :
    (files : List FileIr) (owners : List OwnerEntry) (callables types : List SymbolRef)
    → Lists (in_memory_index files owners callables types) (map qname_of types)
unfolding in_memory_index
index-Lists files owners callables types t h = group_by_qname-listed t types h

module _ (parse_attribute : Text → Option (Text × Text)) (is_word : ℕ → Bool) where
  -- The resolver over the index of the repository, with the depth its types need.
  unfoldable pub memory_resolver :
      List FileIr → List OwnerEntry → List SymbolRef → List SymbolRef → Resolver
  memory_resolver files owners callables types = record {
    index = in_memory_index files owners callables types;
    depth = suc (length types);
    parse_attribute = parse_attribute;
    is_word = is_word;
  }

  unfoldable pub resolve_call_sites :
      List FileIr
      → List OwnerEntry
      → List SymbolRef
      → List SymbolRef
      → Option (List CallResolution × MroCache)
  unfolding resolve_files memory_resolver
  resolve_call_sites files owners callables types =
      resolve_files (memory_resolver files owners callables types) files []

  -- For every repository and all symbol references, types that derive from one another in a circle
  -- included: the resolution ends, and gives exactly one conclusion for each call site, in the
  -- order of the files and of the calls in each.
  pub resolve_call_sites_total :
      (files : List FileIr) (owners : List OwnerEntry) (callables types : List SymbolRef)
      → Covers
          (flat_map (λ f. sites f f.calls) files)
          (resolve_call_sites files owners callables types)
  unfolding resolve_call_sites memory_resolver
  resolve_call_sites_total files owners callables types =
      resolve_files_total (memory_resolver files owners callables types) (map qname_of types) files
        [] (index-Lists files owners callables types) (length-qnames types)
