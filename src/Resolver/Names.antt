-- ===== src/Resolver/Names.antt =====
-- The candidate names of src/codekg/resolver.py: lexical scopes, import bindings, bases.
pub mod Scopes
pub mod Unique
use my_kg_codebase.Prelude.{
  ℕ, zero, suc, Bool, true, false, ◌&&◌, Option, none, some, List, [], ◌∷◌, ◌++◌, map, is_empty,
  if◌then◌else◌, ◌==◌, length,
}
use my_kg_codebase.Prelude.Text.{Text, codes, text_eq, contains, starts_with, has_text, before_last}
use my_kg_codebase.Prelude.Dict.{Dict, lookup, insert}
use my_kg_codebase.Ir.{ImportIr}

-- `value or default`, where the value is a text or None.
unfoldable pub or_else : Option Text → Text → Text
or_else none d = d
or_else (some []) d = d
or_else (some (c ∷ s)) d = c ∷ s

-- root, dot, rest = value.partition(".")
unfoldable pub root_of : Text → Text
root_of [] = []
root_of (c ∷ s) = let rest = root_of s in if c == b'.' then [] else c ∷ rest

unfoldable pub has_dot : Text → Bool
has_dot [] = false
has_dot (c ∷ s) = if c == b'.' then true else has_dot s

unfoldable pub rest_of : Text → Text
rest_of [] = []
rest_of (c ∷ s) = if c == b'.' then s else rest_of s

-- value.split(".")
unfoldable pub split_dots : Text → List Text
split_dots [] = [] ∷ []
split_dots (c ∷ s) = elim (split_dots s) [
  | [] ↦ (c ∷ []) ∷ []
  | part ∷ parts ↦ if c == b'.' then [] ∷ part ∷ parts else (c ∷ part) ∷ parts
]

-- ".".join(parts)
unfoldable pub join_dots : List Text → Text
join_dots [] = []
join_dots (part ∷ []) = part
join_dots (part ∷ more ∷ parts) = part ++ (b'.' ∷ join_dots (more ∷ parts))

-- tuple(dict.fromkeys(candidates)): the first occurrence of each.
abbrev keep_first : List Text → Text → List Text
keep_first seen x = if contains x seen then seen else seen ++ x ∷ []

unfoldable pub from_keys_onto : List Text → List Text → List Text
unfolding contains
from_keys_onto seen [] = seen
from_keys_onto seen (x ∷ xs) = from_keys_onto (keep_first seen x) xs

unfoldable pub from_keys : List Text → List Text
unfolding from_keys_onto
from_keys xs = from_keys_onto [] xs

abbrev pub locals : Text
locals = codes ".<locals>."

-- f"{module_qname}.{name}"
abbrev pub dotted : Text → Text → Text
dotted module_name name = module_name ++ (b'.' ∷ name)

-- The `while` loop of `_lexical_candidates`: the scopes that it visits. `none` says that the
-- rounds ran out, which does not happen in `lexical_scopes`.
unfoldable pub scope_loop : ℕ → Text → Text → Option (List Text)
unfolding starts_with has_text before_last
scope_loop zero module_name scope = none
scope_loop (suc rounds) module_name scope = elim (starts_with scope (dotted module_name [])) [
  | false ↦ some []
  | true ↦ elim (has_text locals scope) [
    | false ↦ some (scope ∷ [])
    | true ↦ elim (scope_loop rounds module_name (before_last locals scope)) [
      | none ↦ none
      | some outer ↦ some (scope ∷ outer)
    ]
  ]
]

unfoldable pub lexical_scopes : Text → Text → Option (List Text)
unfolding scope_loop
lexical_scopes owner module_name = scope_loop (suc (length owner)) module_name owner

abbrev visited : Option (List Text) → List Text
visited none = []
visited (some scopes) = scopes

-- _lexical_candidates
unfoldable pub lexical_candidates : Text → Text → Text → List Text
unfolding lexical_scopes from_keys
lexical_candidates owner module_name name = from_keys (
    map (λ scope. scope ++ locals ++ name) (visited (lexical_scopes owner module_name))
    ++ dotted module_name name ∷ [])

-- bindings.setdefault(k, v)
abbrev set_default : Text → Text → Dict Text → Dict Text
set_default k v d = elim (lookup k d) [ none ↦ insert k v d | some w ↦ d ]

-- The body of the loop of `_import_bindings`.
unfoldable pub bind_import : ImportIr → Dict Text → Dict Text
unfolding lookup insert or_else root_of text_eq
bind_import i bindings =
    if text_eq i.name (codes "*")
    then bindings
    else if text_eq i.name i.module_name
    then (let binding = or_else i.alias (root_of i.module_name) in
        set_default binding (elim i.alias [ none ↦ binding | some _ ↦ i.module_name ]) bindings)
    else insert (or_else i.alias i.name) (dotted i.module_name i.name) bindings

unfoldable pub bind_imports : Dict Text → List ImportIr → Dict Text
unfolding bind_import
bind_imports bindings [] = bindings
bind_imports bindings (i ∷ imports) = bind_imports (bind_import i bindings) imports

-- _import_bindings
unfoldable pub import_bindings : List ImportIr → Dict Text
unfolding bind_imports
import_bindings imports = bind_imports [] imports

abbrev pub listed : Option Text → List Text
listed none = []
listed (some x) = x ∷ []

-- `[base_qname]` and what its root is bound to, where it has one and is dotted.
abbrev dotted_base : Text → Dict Text → List Text
dotted_base base bindings =
    base
    ∷ (if has_dot base
        then elim (lookup (root_of base) bindings) [
          | none ↦ []
          | some target ↦ dotted target (rest_of base) ∷ []
        ]
        else [])

abbrev base_candidates : Option Text → Dict Text → List Text
base_candidates none bindings = []
base_candidates (some []) bindings = []
base_candidates (some (c ∷ s)) bindings = dotted_base (c ∷ s) bindings

-- _inheritance_candidates
unfoldable pub inheritance_candidates : Text → Option Text → Dict Text → List Text
unfolding from_keys lookup has_dot root_of rest_of
inheritance_candidates base_name base_qname bindings =
    from_keys (base_candidates base_qname bindings ++ listed (lookup base_name bindings))
