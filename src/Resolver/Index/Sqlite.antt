-- ===== src/Resolver/Index/Sqlite.antt =====
-- SqliteResolverIndex of src/codekg/resolver.py: the look-ups over the rows of the registry.
use my_kg_codebase.Prelude.{
  ◌≡◌, ◌≢◌, refl, sym, ap, ◌∙◌, subst, map, Bool, true, ◌&&◌, ◌||◌, Option, none, some, List, [],
  ◌∷◌, filter, arith, if◌then◌else◌,
}
use my_kg_codebase.Prelude.Text.{Text, codes, text_eq, text_lt}
use my_kg_codebase.Ir.{FileIr}
use my_kg_codebase.Resolver.Refs.{SymbolRef, sort_refs}
use my_kg_codebase.Resolver.Refs.Groups.{get_list-group_by_qname}
use my_kg_codebase.Resolver.Bases.{BaseState, sqlite_base_state, file_at}
use my_kg_codebase.Resolver.Index.{ResolverIndex, OwnerEntry, in_memory_index}

-- row[5] or None
abbrev pub annotation_or_none : Option Text → Option Text
annotation_or_none none = none
annotation_or_none (some []) = none
annotation_or_none (some (c ∷ text)) = some (c ∷ text)

-- The row of a symbol as `_refs` reads it.
unfoldable pub read_row : SymbolRef → SymbolRef
read_row row = record row { return_annotation = annotation_or_none row.return_annotation }

-- _refs
abbrev pub read_rows : List SymbolRef → List SymbolRef
read_rows rows = map read_row rows

-- The rows of `module_owners` and of `imports`.
pub record ModuleOwner : Type 0 where
  pub language : Text
  pub module_qname : Text
  pub owner_path : Text

pub record ImportRow : Type 0 where
  pub path : Text
  pub module_name : Text

-- SELECT owner_path FROM module_owners WHERE language=? AND module_qname=?
unfoldable pub module_owner_row : List ModuleOwner → Text → Text → Option Text
unfolding text_eq
module_owner_row [] language module_qname = none
module_owner_row (row ∷ rows) language module_qname =
    if text_eq row.language language && text_eq row.module_qname module_qname
    then some row.owner_path
    else module_owner_row rows language module_qname

abbrev pub is_callable_kind : Text → Bool
is_callable_kind kind = text_eq kind (codes "function") || text_eq kind (codes "method")

abbrev pub is_type_kind : Text → Bool
is_type_kind kind = text_eq kind (codes "type")

-- … FROM symbols WHERE path = ? AND qname = ? ORDER BY key
unfoldable pub owner_rows : List SymbolRef → Text → Text → List SymbolRef
unfolding read_row sort_refs text_eq
owner_rows symbols path qname =
    read_rows (sort_refs (filter (λ row. text_eq row.path path && text_eq row.qname qname) symbols))

-- … FROM symbols WHERE qname = ? AND kind IN ('function', 'method') ORDER BY key
unfoldable pub callable_rows : List SymbolRef → Text → List SymbolRef
unfolding read_row sort_refs text_eq
callable_rows symbols qname =
    read_rows
      (sort_refs (filter (λ row. text_eq row.qname qname && is_callable_kind row.kind) symbols))

-- … FROM symbols WHERE qname = ? AND kind = 'type' ORDER BY key
unfoldable pub type_rows : List SymbolRef → Text → List SymbolRef
unfolding read_row sort_refs text_eq
type_rows symbols qname =
    read_rows (sort_refs (filter (λ row. text_eq row.qname qname && is_type_kind row.kind) symbols))

-- The rows of bases are joined with the files, so that the source's `assert file is not None`
-- never fails; the case without a state stands for it.
abbrev readable : Option BaseState → BaseState
readable none = record { bases = []; incomplete = true }
readable (some state) = state

-- The row of a file, with its imports: what `file` reads.
abbrev pub compact : FileIr → FileIr
compact f = record {
  path = f.path;
  language = f.language;
  loc = f.loc;
  module_qname = f.module_qname;
  module_init = none;
  parse_status = f.parse_status;
  diagnostics = [];
  imports = f.imports;
  symbols = [];
  inheritance = [];
  calls = [];
  local_bindings = [];
  sql_artifacts = [];
  sql_statements = [];
  sql_object_refs = [];
}

-- SqliteResolverIndex, without `close` and the connection
unfoldable pub sqlite_index : List SymbolRef → List FileIr → List ModuleOwner → ResolverIndex
unfolding owner_rows callable_rows type_rows sqlite_base_state file_at module_owner_row
sqlite_index symbols files modules = record {
  owners = owner_rows symbols;
  callables = callable_rows symbols;
  types = type_rows symbols;
  file = λ path. elim (file_at path files) [ none ↦ none | some f ↦ some (compact f) ];
  files = files;
  base_state = λ qname. readable (sqlite_base_state (type_rows symbols) files qname);
  module_owner = module_owner_row modules;
}

-- SELECT path FROM imports WHERE module = ? ORDER BY path LIMIT 1: the least of the paths.
unfoldable pub external_module_owner : List ImportRow → Text → Option Text
unfolding text_eq
external_module_owner [] name = none
external_module_owner (row ∷ rows) name =
    let others = external_module_owner rows name in
    if text_eq row.module_name name
    then some (elim others [
      | none ↦ row.path
      | some path ↦ if text_lt path row.path then path else row.path
    ])
    else others

filter-filter {ℓ} :
    {A : Type ℓ} (p q : A → Bool) (xs : List A)
    → filter p (filter q xs) ≡ filter (λ x. p x && q x) xs
filter-filter p q [] = refl
filter-filter p q (x ∷ xs) = ground (arith, filter-filter p q xs)

-- The one is the other, but that an empty annotation of the result became none.
abbrev pub IsReadBack : SymbolRef → SymbolRef → Type 0
IsReadBack given back =
    (back.key ≡ given.key)
    × (back.qname ≡ given.qname)
    × (back.path ≡ given.path)
    × (back.kind ≡ given.kind)
    × (back.parent_qname ≡ given.parent_qname)
    × (given.return_annotation ≡ some [] → back.return_annotation ≡ none)
    × (given.return_annotation ≢ some [] → back.return_annotation ≡ given.return_annotation)

-- As many, and each read back from the one in its place.
abbrev pub AreReadBack : List SymbolRef → List SymbolRef → Type 0
AreReadBack [] [] = Unit {0}
AreReadBack (given ∷ others) (back ∷ backs) = IsReadBack given back × AreReadBack others backs
AreReadBack _ _ = ⊥

annotation_emptied :
    (annotation : Option Text) → annotation ≡ some [] → annotation_or_none annotation ≡ none
annotation_emptied none h = refl
annotation_emptied (some []) h = refl
annotation_emptied (some (c ∷ text)) h = absurd (ground (arith, h))

annotation_kept :
    (annotation : Option Text) → annotation ≢ some [] → annotation_or_none annotation ≡ annotation
annotation_kept none h = refl
annotation_kept (some []) h = absurd (h refl)
annotation_kept (some (c ∷ text)) h = refl

read_rows-AreReadBack : (refs : List SymbolRef) → AreReadBack refs (read_rows refs)
unfolding read_row
read_rows-AreReadBack [] = tt
read_rows-AreReadBack (r ∷ refs) = (
  (
    refl,
    refl,
    refl,
    refl,
    refl,
    annotation_emptied r.return_annotation,
    annotation_kept r.return_annotation,
  ),
  read_rows-AreReadBack refs,
)

read_from : (given refs : List SymbolRef) → given ≡ refs → AreReadBack given (read_rows refs)
read_from given refs e =
    subst (λ l. AreReadBack l (read_rows refs)) (sym e) (read_rows-AreReadBack refs)

-- For all symbols and every name: the SQLite look-up of types, and of callables, answers as many
-- references as the in-memory look-up that is given the symbols of those kinds, and in the same
-- order. Each has the same key, name, path, kind, parent and result annotation as the one in its
-- place there, save that an annotation that is the empty text is None in SQLite's answer.
pub sqlite_index-in_memory_index :
    (symbols : List SymbolRef) (files : List FileIr) (modules : List ModuleOwner)
    (owners : List OwnerEntry) (qname : Text)
    → let memory =
        in_memory_index files owners
          (filter (λ s. is_callable_kind s.kind) symbols)
          (filter (λ s. is_type_kind s.kind) symbols) in
      let stored = sqlite_index symbols files modules in
      AreReadBack (memory.types qname) (stored.types qname)
      × AreReadBack (memory.callables qname) (stored.callables qname)
unfolding sqlite_index in_memory_index type_rows callable_rows
sqlite_index-in_memory_index symbols files modules owners qname = (
  read_from _ _ (
      get_list-group_by_qname qname (filter (λ s. is_type_kind s.kind) symbols)
      ∙ ap sort_refs
          (filter-filter (λ s. text_eq s.qname qname) (λ s. is_type_kind s.kind) symbols)),
  read_from _ _ (
      get_list-group_by_qname qname (filter (λ s. is_callable_kind s.kind) symbols)
      ∙ ap sort_refs
          (filter-filter (λ s. text_eq s.qname qname) (λ s. is_callable_kind s.kind) symbols)),
)
