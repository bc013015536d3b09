-- ===== src/Resolver/Bases/Rows.antt =====
-- The two backends agree on the bases of a type.
use my_kg_codebase.Prelude.{
  ◌≡◌, refl, ◌∙◌, true, false, Option, none, some, List, [], ◌∷◌, ◌++◌, map, filter, length, arith,
  if◌then◌else◌, Bool-cases, Option-cases, inl, inr, append_assoc, append-nil, All,
}
use my_kg_codebase.Prelude.Text.{Text, text_eq, text_eq_iff, text_eq_refl, contains}
use my_kg_codebase.Prelude.Dict.{lookup}
use my_kg_codebase.Ir.{FileIr, InheritanceIr}
use my_kg_codebase.Resolver.Merge.Round.{distinct}
use my_kg_codebase.Resolver.Names.{import_bindings}
use my_kg_codebase.Resolver.Refs.{SymbolRef}
use my_kg_codebase.Resolver.Bases.{
  BaseState, empty_table, memory_base_state, sqlite_base_state, row_bases, inheritance_rows,
  file_at, parent_of,
}
use my_kg_codebase.Resolver.Bases.Table.{parents, parents_in, known, any_unknown, add_files-parts}
use my_kg_codebase.Resolver.Bases.States.{memory_base_state-table}

-- What the rows of one type come to.
abbrev rows_state : List Text → List (Option Text) → BaseState
rows_state bases ps =
    if any_unknown ps
    then record { bases = []; incomplete = true }
    else record { bases = bases ++ known ps; incomplete = false }

rows_state-cons :
    (bases : List Text) (p : Text) (ps : List (Option Text))
    → ◌≡◌ {A = Option BaseState}
        (some (rows_state (bases ++ p ∷ []) ps))
        (some (rows_state bases (some p ∷ ps)))
rows_state-cons bases p ps = ground (arith, append_assoc bases (p ∷ []) (known ps))

-- The rows of one file are read with that file's imports.
row_bases-file :
    (types : Text → List SymbolRef) (file : Text → Option FileIr) (f : FileIr) (q : Text)
    (is : List InheritanceIr) (more : List (Text × InheritanceIr)) (ps : List (Option Text))
    → file f.path ≡ some f
    → ((bases : List Text) → row_bases types file bases more ≡ some (rows_state bases ps))
    → (bases : List Text)
    → row_bases types file bases
        (map (λ i. (f.path, i)) (filter (λ i. text_eq i.type_qname q) is) ++ more)
      ≡ some (rows_state bases (parents_in types q (import_bindings f.imports) is ++ ps))
unfolding row_bases
row_bases-file types file f q [] more ps h rest bases = rest bases
row_bases-file types file f q (i ∷ is) more ps h rest bases =
    elim (Bool-cases (text_eq i.type_qname q)) [
      | inr e ↦ rw e (row_bases-file types file f q is more ps h rest bases)
      | inl e ↦ elim (Option-cases (parent_of types (import_bindings f.imports) i)) [
        | inl u ↦ rw (e, h, u, row_bases) refl
        | inr (p, k) ↦
            rw (e, h, k, row_bases)
              (row_bases-file types file f q is more ps h rest (bases ++ p ∷ [])
                ∙ rows_state-cons bases p (parents_in types q (import_bindings f.imports) is ++ ps))
      ]
    ]

-- Every path names one file.
abbrev pub PathsDistinct : List FileIr → Type 0
PathsDistinct files = distinct (map (λ f. f.path) files) ≡ true

-- The rows of all files from some point on, with the lookup of a file given as a function.
row_bases-files :
    (types : Text → List SymbolRef) (file : Text → Option FileIr) (q : Text) (files : List FileIr)
    → All (λ f. file f.path ≡ some f) files
    → (bases : List Text)
    → row_bases types file bases (inheritance_rows q files)
      ≡ some (rows_state bases (parents types q files))
unfolding inheritance_rows
row_bases-files types file q [] h bases = unfold row_bases in ground (arith, append-nil bases)
row_bases-files types file q (f ∷ files) h bases =
    row_bases-file types file f q f.inheritance (inheritance_rows q files) (parents types q files)
      h.0 (row_bases-files types file q files h.1) bases

file_at-absent :
    (path : Text) (files : List FileIr)
    → contains path (map (λ f. f.path) files) ≡ false
    → file_at path files ≡ none
unfolding file_at contains
file_at-absent path [] h = refl
file_at-absent path (f ∷ files) h =
    ground (arith, file_at-absent path files, text_eq_iff f.path path, text_eq_iff path f.path)

found_in_tail :
    (f : FileIr) (files rest : List FileIr)
    → contains f.path (map (λ g. g.path) rest) ≡ false
    → All (λ g. file_at g.path files ≡ some g) rest
    → All (λ g. file_at g.path (f ∷ files) ≡ some g) rest
unfolding file_at
found_in_tail f files [] a h = tt
found_in_tail f files (g ∷ rest) a h =
    (rw h.0 refl, found_in_tail f files rest (unfold contains in ground arith) h.1)

-- With distinct paths, each file is found at its path.
PathsDistinct-found :
    (files : List FileIr) → PathsDistinct files → All (λ f. file_at f.path files ≡ some f) files
unfolding distinct
PathsDistinct-found [] h = tt
PathsDistinct-found (f ∷ files) h = (
  unfold file_at in ground (arith, file_at-absent f.path files, text_eq_refl f.path, h),
  found_in_tail f files files (ground (arith, h)) (PathsDistinct-found files (ground (arith, h))),
)

abbrev pub Agree : BaseState → Option BaseState → Type 0
Agree m none = ⊥
Agree m (some s) = (m.incomplete ≡ s.incomplete) × (s.incomplete ≡ false → m.bases ≡ s.bases)

Agree-rows :
    (m : BaseState) (ps : List (Option Text))
    → m.bases ≡ known ps
    → m.incomplete ≡ any_unknown ps
    → Agree m (some (rows_state [] ps))
Agree-rows m ps b i = elim (Bool-cases (any_unknown ps)) [
  | inl e ↦ rw e (i ∙ e, λ d. cc)
  | inr e ↦ rw e (i ∙ e, λ d. b)
]

-- For files with distinct paths, the backends agree on every type that is declared once: the SQLite
-- rows are all read, both call the state incomplete in the same cases, and where it is complete they
-- give the same bases.
pub base_state-Agree :
    (types : Text → List SymbolRef) (files : List FileIr) (q : Text)
    → PathsDistinct files
    → length (types q) ≡ 1
    → Agree (memory_base_state types files q) (sqlite_base_state types files q)
unfolding sqlite_base_state lookup contains
base_state-Agree types files q d one =
    rw
      (
        one,
        row_bases-files types (λ path. file_at path files) q files (PathsDistinct-found files d) [],
      )
      (rw memory_base_state-table (
        let (b, c) = add_files-parts types q one files empty_table in
        Agree-rows _ (parents types q files) b c))
