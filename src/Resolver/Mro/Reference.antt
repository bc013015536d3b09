-- ===== src/Resolver/Mro/Reference.antt =====
-- The method resolution order without a cache and without a set of active types.
use Prim.Native.Nat.add
use native.Mathlib.Nat.{zero-add, add_comm}
use my_kg_codebase.Prelude.{
  ℕ, zero, suc, ◌+◌, ◌≡◌, Bool, true, false, Option, none, some, List, [], ◌∷◌, length,
  if◌then◌else◌, ◌==◌, arith, Bool-cases, Option-cases, inl, inr, ◌≢◌, ◌∙◌,
}
use my_kg_codebase.Prelude.Text.{Text, contains, contains-later, text_eq, text_eq_sound}
use my_kg_codebase.Resolver.Index.{ResolverIndex}
use my_kg_codebase.Resolver.Mro.{merged_mro, prepend}

-- All orders, if each of the types has one.
abbrev pub gather : List Text → (Text → Option (List Text)) → Option (List (List Text))
gather [] order = some []
gather (p ∷ ps) order = elim (order p) [ none ↦ none | some l ↦ prepend l (gather ps order) ]

-- The parts of a gathering that succeeds.
pub gather_parts :
    (f : Text → Option (List Text)) (p : Text) (ps : List Text) (ms : List (List Text))
    → gather (p ∷ ps) f ≡ some ms
    → (l : List Text) × (rest : List (List Text)) × (f p ≡ some l)
      × (gather ps f ≡ some rest)
      × (ms ≡ l ∷ rest)
gather_parts f p ps ms h = elim (Option-cases (f p)) [
  | inl e ↦ absurd (ground (arith, e, h))
  | inr (l, e) ↦ elim (Option-cases (gather ps f)) [
    | inl k ↦ absurd (ground (arith, e, k, h))
    | inr (rest, k) ↦ (l, rest, e, k, ground (arith, e, k, h))
  ]
]

pub gather_intro :
    (f : Text → Option (List Text)) (p : Text) (ps : List Text) (l : List Text)
    (rest : List (List Text))
    → f p ≡ some l
    → gather ps f ≡ some rest
    → gather (p ∷ ps) f ≡ some (l ∷ rest)
gather_intro f p ps l rest e k = ground (arith, e, k)

gather_mono :
    (f g : Text → Option (List Text)) (ps : List Text) (ms : List (List Text))
    → ((p : Text) (l : List Text) → f p ≡ some l → g p ≡ some l)
    → gather ps f ≡ some ms
    → gather ps g ≡ some ms
gather_mono f g [] ms up h = h
gather_mono f g (p ∷ ps) ms up h =
    let (l, rest, e, k, same) = gather_parts f p ps ms h in
    rw same (gather_intro g p ps l rest (up p l e) (gather_mono f g ps rest up k))

-- A member of a gathering has an order.
pub gather_member :
    (f : Text → Option (List Text)) (q : Text) (ps : List Text) (ms : List (List Text))
    → gather ps f ≡ some ms
    → contains q ps ≡ true
    → (l : List Text) × (f q ≡ some l)
gather_member f q [] ms h c = absurd (unfold contains in ground (arith, c))
gather_member f q (p ∷ ps) ms h c =
    let (l, rest, e, k, same) = gather_parts f p ps ms h in
    elim (Bool-cases (text_eq q p)) [
      | inl here ↦ (l, rw (text_eq_sound q p here) e)
      | inr there ↦ gather_member f q ps rest k (contains-later q p ps there c)
    ]

module _ (index : ResolverIndex) where
  -- The type is declared once and its bases are known.
  abbrev pub is_sound : Text → Bool
  is_sound t = elim (index.base_state t).incomplete [
    | true ↦ false
    | false ↦ length (index.types t) == 1
  ]

  -- Python's definition, followed to some depth: the merge of the parents' orders and of the
  -- parents, behind the type.
  unfoldable pub linearize : ℕ → Text → Option (List Text)
  linearize zero t = none
  linearize (suc n) t =
      let bases = (index.base_state t).bases in
      let result = merged_mro t bases (gather bases (linearize n)) in
      if is_sound t then result else none

  -- The type has this order.
  abbrev pub Linear : Text → List Text → Type 0
  Linear t l = (n : ℕ) × (linearize n t ≡ some l)

  -- The parts of an order.
  pub linearize_parts :
      (n : ℕ) (t : Text) (l : List Text)
      → linearize (suc n) t ≡ some l
      → (is_sound t ≡ true)
        × (ms : List (List Text)) × (gather (index.base_state t).bases (linearize n) ≡ some ms)
        × (merged_mro t (index.base_state t).bases (some ms) ≡ some l)
  unfolding linearize
  linearize_parts n t l h = elim (Bool-cases (is_sound t)) [
    | inr e ↦ absurd (ground (arith, e, h))
    | inl e ↦ elim (Option-cases (gather (index.base_state t).bases (linearize n))) [
      | inl k ↦ absurd (ground (arith, e, k, h))
      | inr (ms, k) ↦ (e, ms, k, ground (arith, e, k, h))
    ]
  ]

  pub linearize_intro :
      (n : ℕ) (t : Text) (ms : List (List Text))
      → is_sound t ≡ true
      → gather (index.base_state t).bases (linearize n) ≡ some ms
      → linearize (suc n) t ≡ merged_mro t (index.base_state t).bases (some ms)
  unfolding linearize
  linearize_intro n t ms e k = ground (arith, e, k)

  pub linearize-suc :
      (n : ℕ) (t : Text) (l : List Text) → linearize n t ≡ some l → linearize (suc n) t ≡ some l
  linearize-suc zero t l h = absurd (unfold linearize in ground (arith, h))
  linearize-suc (suc n) t l h =
      let (sound, ms, k, r) = linearize_parts n t l h in
      linearize_intro (suc n) t ms sound (
        gather_mono (linearize n) (linearize (suc n)) (index.base_state t).bases ms
          (λ p m. linearize-suc n p m) k)
      ∙ r

  pub linearize_add :
      (k n : ℕ) (t : Text) (l : List Text) → linearize n t ≡ some l → linearize (k + n) t ≡ some l
  linearize_add zero n t l h = rw zero-add h
  linearize_add (suc k) n t l h =
      rw (add.suc k n) (linearize-suc (k + n) t l (linearize_add k n t l h))

  pub gather_add :
      (k n : ℕ) (ps : List Text) (ms : List (List Text))
      → gather ps (linearize n) ≡ some ms
      → gather ps (linearize (k + n)) ≡ some ms
  gather_add k n ps ms h =
      gather_mono (linearize n) (linearize (k + n)) ps ms (λ p l. linearize_add k n p l) h

  -- From a type to one that it is derived from, in one or more steps.
  pub data Derives (a : Text) : Text → Type 0 where
    direct : {b : Text} → contains b (index.base_state a).bases ≡ true → Derives a b
    further :
        {b c : Text} → Derives a b → contains c (index.base_state b).bases ≡ true → Derives a c

  base_order :
      (n : ℕ) (a b : Text) (l : List Text)
      → contains b (index.base_state a).bases ≡ true
      → linearize (suc n) a ≡ some l
      → (m : List Text) × (linearize n b ≡ some m)
  base_order n a b l c h =
      let (sound, ms, k, r) = linearize_parts n a l h in
      gather_member (linearize n) b (index.base_state a).bases ms k c

  ancestor_order :
      (n : ℕ) (a : Text) {b : Text} (l : List Text)
      → Derives a b
      → linearize (suc n) a ≡ some l
      → (m : List Text) × (linearize n b ≡ some m)
  ancestor_order n a l (direct {b = b} c) h = base_order n a b l c h
  ancestor_order n a l (further {b = b} {c = c} d e) h =
      let (m, k) = ancestor_order n a l d h in base_order n b c m e (linearize-suc n b m k)

  -- A type that derives from itself has no order.
  pub cyclic_has_no_order :
      (n : ℕ) (t : Text) (l : List Text) → Derives t t → linearize n t ≢ some l
  cyclic_has_no_order zero t l d h = absurd (unfold linearize in ground (arith, h))
  cyclic_has_no_order (suc n) t l d h =
      let (m, k) = ancestor_order n t l d h in cyclic_has_no_order n t m d k

  -- A type has at most one order.
  pub Linear-unique : (t : Text) (l l' : List Text) → Linear t l → Linear t l' → l ≡ l'
  Linear-unique t l l' (n, h) (m, k) =
      let a : linearize (m + n) t ≡ some l = linearize_add m n t l h in
      let b : linearize (m + n) t ≡ some l' = rw (add_comm m n) (linearize_add n m t l' k) in cc
