-- ===== src/Resolver/Refs/Groups.antt =====
-- Grouping by qualified name loses no symbol, mixes none, and sorts each group by key.
use mathlib.Core.List.{Perm}
use mathlib.Core.List.Perm
use my_kg_codebase.Prelude.{
  ◌≡◌, refl, sym, ap, ◌∙◌, true, false, List, [], ◌∷◌, ◌++◌, map, filter, length, arith,
  if◌then◌else◌, Bool-cases, inl, inr, append-nil, append_assoc, ◌≢◌,
}
use my_kg_codebase.Prelude.Text.{Text, text_eq, text_eq_iff, text_eq_sound, text_lt, contains}
use my_kg_codebase.Prelude.Dict.{Dict, lookup, insert, lookup-insert}
use my_kg_codebase.Resolver.Refs.{
  SymbolRef, get_list, group_onto, group_by_qname, sort_refs, insert_ref, sort_group,
}

-- The symbols of that qualified name.
abbrev pub named : Text → List SymbolRef → List SymbolRef
named q refs = filter (λ ref. text_eq ref.qname q) refs

get_list-insert :
    (k j : Text) (v : List SymbolRef) (d : Dict (List SymbolRef))
    → get_list j (insert k v d) ≡ (if text_eq k j then v else get_list j d)
get_list-insert k j v d = ground (arith, lookup-insert k j v d)

get_list-append :
    (k q : Text) (v : SymbolRef) (d : Dict (List SymbolRef))
    → text_eq k q ≡ true
    → get_list q (insert k (get_list k d ++ v ∷ []) d) ≡ get_list q d ++ v ∷ []
get_list-append k q v d e =
    rw (get_list-insert k q (get_list k d ++ v ∷ []) d, e) (rw (text_eq_sound k q e) refl)

get_list-group_onto :
    (q : Text) (grouped : Dict (List SymbolRef)) (values : List SymbolRef)
    → get_list q (group_onto grouped values) ≡ get_list q grouped ++ named q values
unfolding group_onto
get_list-group_onto q grouped [] = sym (append-nil _)
get_list-group_onto q grouped (v ∷ values) =
    get_list-group_onto q (insert v.qname (get_list v.qname grouped ++ v ∷ []) grouped) values
    ∙ elim (Bool-cases (text_eq v.qname q)) [
      | inr e ↦ rw (get_list-insert v.qname q _ grouped, e) refl
      | inl e ↦
          rw (get_list-append v.qname q v grouped e, e)
            (append_assoc (get_list q grouped) (v ∷ []) (named q values))
    ]

get_list-sorted :
    (q : Text) (d : Dict (List SymbolRef))
    → get_list q (map sort_group d) ≡ sort_refs (get_list q d)
unfolding lookup sort_refs
get_list-sorted q [] = refl
get_list-sorted q ((j, refs) ∷ d) = ground (arith, get_list-sorted q d)

pub get_list-group_by_qname :
    (q : Text) (values : List SymbolRef)
    → get_list q (group_by_qname values) ≡ sort_refs (named q values)
unfolding group_by_qname lookup
get_list-group_by_qname q values =
    get_list-sorted q (group_onto [] values) ∙ ap sort_refs (get_list-group_onto q [] values)

insert_ref-perm : (r : SymbolRef) (refs : List SymbolRef) → Perm (insert_ref r refs) (r ∷ refs)
unfolding insert_ref
insert_ref-perm r [] = Perm.refl (r ∷ [])
insert_ref-perm r (s ∷ refs) = elim (Bool-cases (text_lt s.key r.key)) [
  | inr e ↦ rw e (Perm.refl (r ∷ s ∷ refs))
  | inl e ↦ rw e (Perm.trans (Perm.cons s (insert_ref-perm r refs)) (Perm.swap r s refs))
]

pub sort_refs-perm : (refs : List SymbolRef) → Perm (sort_refs refs) refs
unfolding sort_refs
sort_refs-perm [] = Perm.refl []
sort_refs-perm (r ∷ refs) =
    Perm.trans (insert_ref-perm r (sort_refs refs)) (Perm.cons r (sort_refs-perm refs))

-- No key is below the key that stands before it.
abbrev pub IsSorted : List SymbolRef → Type 0
IsSorted [] = Unit
IsSorted (r ∷ []) = Unit
IsSorted (r ∷ s ∷ refs) = (text_lt s.key r.key ≡ false) × IsSorted (s ∷ refs)

text_lt_asymm : (a b : Text) → text_lt a b ≡ true → text_lt b a ≡ false
unfolding text_lt
text_lt_asymm [] [] h = refl
text_lt_asymm [] (y ∷ b) h = refl
text_lt_asymm (x ∷ a) [] h = ground (arith, h)
text_lt_asymm (x ∷ a) (y ∷ b) h = ground (arith, text_lt_asymm a b)

insert_behind :
    (r s : SymbolRef) (refs : List SymbolRef)
    → text_lt s.key r.key ≡ true
    → IsSorted (s ∷ refs)
    → IsSorted (insert_ref r refs)
    → IsSorted (s ∷ insert_ref r refs)
unfolding insert_ref
insert_behind r s [] e h k = (text_lt_asymm s.key r.key e, tt)
insert_behind r s (t ∷ refs) e h k = elim (Bool-cases (text_lt t.key r.key)) [
  | inl f ↦ rw f (h.0, rw f at k)
  | inr f ↦ rw f (text_lt_asymm s.key r.key e, rw f at k)
]

insert_ref-IsSorted :
    (r : SymbolRef) (refs : List SymbolRef) → IsSorted refs → IsSorted (insert_ref r refs)
unfolding insert_ref
insert_ref-IsSorted r [] h = tt
insert_ref-IsSorted r (s ∷ []) h = elim (Bool-cases (text_lt s.key r.key)) [
  | inl e ↦ rw e (text_lt_asymm s.key r.key e, tt)
  | inr e ↦ rw e (e, tt)
]
insert_ref-IsSorted r (s ∷ t ∷ refs) h = elim (Bool-cases (text_lt s.key r.key)) [
  | inl e ↦ rw e (insert_behind r s (t ∷ refs) e h (insert_ref-IsSorted r (t ∷ refs) h.1))
  | inr e ↦ rw e (e, h)
]

pub sort_refs-IsSorted : (refs : List SymbolRef) → IsSorted (sort_refs refs)
unfolding sort_refs
sort_refs-IsSorted [] = tt
sort_refs-IsSorted (r ∷ refs) = insert_ref-IsSorted r (sort_refs refs) (sort_refs-IsSorted refs)

-- For all references and every name: the group of that name in the dict that `_group_by_qname`
-- builds is a rearrangement of exactly the references with that name, each as often as it was
-- given, and stands in the order of the keys.
pub group_by_qname-groups :
    (q : Text) (values : List SymbolRef)
    → Perm (get_list q (group_by_qname values)) (named q values)
      × IsSorted (get_list q (group_by_qname values))
group_by_qname-groups q values =
    rw (get_list-group_by_qname q values)
      (sort_refs-perm (named q values), sort_refs-IsSorted (named q values))

abbrev pub qname_of : SymbolRef → Text
qname_of ref = ref.qname

named-unlisted :
    (q : Text) (values : List SymbolRef)
    → contains q (map qname_of values) ≡ false
    → named q values ≡ []
unfolding contains
named-unlisted q [] h = refl
named-unlisted q (v ∷ values) h =
    ground (arith, h, named-unlisted q values, text_eq_iff q v.qname, text_eq_iff v.qname q)

sorted-unlisted :
    (q : Text) (values : List SymbolRef)
    → contains q (map qname_of values) ≡ false
    → length (get_list q (group_by_qname values)) ≢ 1
unfolding sort_refs
sorted-unlisted q values e =
    rw (get_list-group_by_qname q values, named-unlisted q values e) (omega arith)

-- A name with a group is the name of a reference.
pub group_by_qname-listed :
    (q : Text) (values : List SymbolRef)
    → length (get_list q (group_by_qname values)) ≡ 1
    → contains q (map qname_of values) ≡ true
unfolding sort_refs
group_by_qname-listed q values h = elim (Bool-cases (contains q (map qname_of values))) [
  | inl e ↦ e
  | inr e ↦ absurd (sorted-unlisted q values e h)
]
