-- ===== src/Resolver/Index.antt =====
-- The index that the resolver of src/codekg/resolver.py looks symbols up in.
pub mod Sqlite
use my_kg_codebase.Prelude.{◌&&◌, Option, none, some, List, [], ◌∷◌, if◌then◌else◌}
use my_kg_codebase.Prelude.Text.{Text, text_eq, text_lt}
use my_kg_codebase.Prelude.Dict.{lookup}
use my_kg_codebase.Ir.{FileIr}
use my_kg_codebase.Resolver.Refs.{SymbolRef, get_list, sort_refs, group_by_qname}
use my_kg_codebase.Resolver.Bases.{BaseState, memory_base_state, file_at}

-- class ResolverIndex
pub record ResolverIndex : Type 0 where
  pub owners : Text → Text → List SymbolRef
  pub callables : Text → List SymbolRef
  pub types : Text → List SymbolRef
  pub file : Text → Option FileIr
  pub files : List FileIr
  pub base_state : Text → BaseState
  pub module_owner : Text → Text → Option Text

-- sorted(repo.files, key=lambda item: item.path)
unfoldable pub insert_file : FileIr → List FileIr → List FileIr
insert_file f [] = f ∷ []
insert_file f (g ∷ files) =
    let later = insert_file f files in if text_lt g.path f.path then g ∷ later else f ∷ g ∷ files

unfoldable pub sort_files : List FileIr → List FileIr
unfolding insert_file text_lt
sort_files [] = []
sort_files (f ∷ files) = insert_file f (sort_files files)

-- self._module_owners.setdefault((file.language, file.module_qname), file.path): the first wins.
unfoldable pub first_owner : Text → Text → List FileIr → Option Text
unfolding text_eq
first_owner language module_name [] = none
first_owner language module_name (f ∷ files) =
    if text_eq f.language language && text_eq f.module_qname module_name
    then some f.path
    else first_owner language module_name files

-- One entry of `owners_by_file_qname`.
pub record OwnerEntry : Type 0 where
  pub path : Text
  pub qname : Text
  pub refs : List SymbolRef

-- self._owners.get((path, qname), ())
unfoldable pub owners_at : List OwnerEntry → Text → Text → List SymbolRef
unfolding sort_refs text_eq
owners_at [] path qname = []
owners_at (e ∷ entries) path qname =
    if text_eq e.path path && text_eq e.qname qname
    then sort_refs e.refs
    else owners_at entries path qname

-- InMemoryResolverIndex
unfoldable pub in_memory_index :
    List FileIr → List OwnerEntry → List SymbolRef → List SymbolRef → ResolverIndex
unfolding group_by_qname lookup memory_base_state file_at owners_at first_owner sort_files
in_memory_index files owners callables types =
    let types_at = λ (qname : Text). get_list qname (group_by_qname types) in
    record {
      owners = owners_at owners;
      callables = λ qname. get_list qname (group_by_qname callables);
      types = types_at;
      file = λ path. file_at path files;
      files = files;
      base_state = memory_base_state types_at files;
      module_owner = λ language module_name. first_owner language module_name (sort_files files);
    }
