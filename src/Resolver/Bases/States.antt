-- ===== src/Resolver/Bases/States.antt =====
-- The dict that `_base_states_from_files` returns, looked up at one type.
use mathlib.Core.Bool.{not}
use my_kg_codebase.Prelude.{
  ◌≡◌, refl, ap, Bool, true, Option, none, some, List, [], ◌∷◌, ◌++◌, map, filter, arith,
  if◌then◌else◌, Bool-cases, Option-cases, inl, inr,
}
use my_kg_codebase.Prelude.Text.{Text, text_eq, text_eq_iff, text_eq_sound, text_eq_refl, contains}
use my_kg_codebase.Prelude.Dict.{Dict, lookup}
use my_kg_codebase.Ir.{FileIr}
use my_kg_codebase.Resolver.Refs.{SymbolRef, get_list}
use my_kg_codebase.Resolver.Bases.{
  BaseState, no_bases, BaseTable, add_files, empty_table, base_states_from_files, memory_base_state,
  state_of, incomplete_state, has_key,
}

lookup-append {ℓ} :
    {V : Type ℓ} (k : Text) (d e : Dict V)
    → lookup k (d ++ e) ≡ elim (lookup k d) [ none ↦ lookup k e | some v ↦ some v ]
unfolding lookup
lookup-append k [] e = refl
lookup-append k ((j, v) ∷ d) e = elim (Bool-cases (text_eq j k)) [
  | inl h ↦ rw h refl
  | inr h ↦ rw h (lookup-append k d e)
]

contains_cong : (j k : Text) (xs : List Text) → text_eq j k ≡ true → contains j xs ≡ contains k xs
contains_cong j k xs e = ap (λ x. contains x xs) (text_eq_sound j k e)

lookup-map-state_of :
    (t : BaseTable) (q : Text) (d : Dict (List Text))
    → lookup q (map (state_of t) d) ≡ elim (lookup q d) [
      | none ↦ none
      | some vs ↦ some (record { bases = vs; incomplete = contains q t.incomplete })
    ]
unfolding lookup
lookup-map-state_of t q [] = refl
lookup-map-state_of t q ((j, vs) ∷ d) =
    ground (arith, lookup-map-state_of t q d, contains_cong j q t.incomplete)

lookup-incomplete :
    (q : Text) (xs : List Text)
    → lookup q (map incomplete_state xs)
      ≡ (if contains q xs then some (record { bases = []; incomplete = true }) else none)
unfolding lookup contains
lookup-incomplete q [] = refl
lookup-incomplete q (x ∷ xs) =
    ground (arith, lookup-incomplete q xs, text_eq_iff x q, text_eq_iff q x)

contains-filter :
    (q : Text) (p : Text → Bool) (xs : List Text)
    → p q ≡ true
    → contains q (filter p xs) ≡ contains q xs
unfolding contains
contains-filter q p [] h = refl
contains-filter q p (x ∷ xs) h = elim (Bool-cases (text_eq q x)) [
  | inl e ↦ rw (← text_eq_sound q x e, h) (unfold contains in rw (text_eq_refl q) refl)
  | inr e ↦ ground (arith, e, contains-filter q p xs h)
]

abbrev from_entry : Option BaseState → BaseState
from_entry none = no_bases
from_entry (some s) = s

module _ (t : BaseTable) (q : Text) where
  abbrev unlisted : Text → Bool
  unlisted x = not (has_key t.bases x)

  abbrev states : Dict BaseState
  states = map (state_of t) t.bases ++ map incomplete_state (filter unlisted t.incomplete)

  states_at :
      from_entry (lookup q states)
      ≡ record { bases = get_list q t.bases; incomplete = contains q t.incomplete }
  states_at =
      let joined =
        lookup-append q (map (state_of t) t.bases)
          (map incomplete_state (filter unlisted t.incomplete)) in
      elim (Option-cases (lookup q t.bases)) [
        | inl e ↦ ground (
          arith,
          e,
          joined,
          lookup-map-state_of t q t.bases,
          lookup-incomplete q (filter unlisted t.incomplete),
          contains-filter q unlisted t.incomplete (ground (arith, e)),
        )
        | inr (vs, e) ↦ ground (arith, e, joined, lookup-map-state_of t q t.bases)
      ]

-- In memory, the state of a type is its entry of the table.
pub memory_base_state-table :
    (types : Text → List SymbolRef) (files : List FileIr) (q : Text)
    → memory_base_state types files q ≡ record {
      bases = get_list q (add_files types files empty_table).bases;
      incomplete = contains q (add_files types files empty_table).incomplete;
    }
unfolding memory_base_state base_states_from_files
memory_base_state-table types files q =
    ground (arith, states_at (add_files types files empty_table) q)
