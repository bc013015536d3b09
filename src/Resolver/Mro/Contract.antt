-- ===== src/Resolver/Mro/Contract.antt =====
-- What an order promises: Python's rules for the method resolution order.
use my_kg_codebase.Prelude.{
  ℕ, zero, suc, ◌≡◌, refl, true, ◌||◌, Option, none, some, List, [], ◌∷◌, ◌++◌, All, arith,
  Bool-cases, ◌⊎◌, inl, inr, ◌≢◌, subst,
}
use my_kg_codebase.Prelude.Text.{
  Text, contains, contains-later, text_eq, text_eq_sound, text_eq_refl,
}
use my_kg_codebase.Resolver.Merge.{c3_merge}
use my_kg_codebase.Resolver.Merge.Round.{Sublist, distinct, somewhere}
use my_kg_codebase.Resolver.Merge.Sound.{c3_merge-IsMerge}
use my_kg_codebase.Resolver.Index.{ResolverIndex}
use my_kg_codebase.Resolver.Mro.{headed}
use my_kg_codebase.Resolver.Mro.Reference.{
  linearize, Linear, linearize_parts, gather, gather_parts, Derives, direct, further,
  cyclic_has_no_order,
}

-- The parts of a headed order.
headed_parts :
    (t : Text) (merged : Option (List Text)) (l : List Text)
    → headed t merged ≡ some l
    → (rest : List Text) × (merged ≡ some rest) × (l ≡ t ∷ rest)
headed_parts t none l h = absurd (ground (arith, h))
headed_parts t (some rest) l h = (rest, refl, ground (arith, h))

All-append_left {ℓ} : {A : Type ℓ} (P : A → Type ℓ) (xs ys : List A) → All P (xs ++ ys) → All P xs
All-append_left P [] ys h = tt
All-append_left P (x ∷ xs) ys h = (h.0, All-append_left P xs ys h.1)

All-append_right {ℓ} : {A : Type ℓ} (P : A → Type ℓ) (xs ys : List A) → All P (xs ++ ys) → All P ys
All-append_right P [] ys h = h
All-append_right P (x ∷ xs) ys h = All-append_right P xs ys h.1

somewhere-append :
    (x : Text) (p q : List (List Text)) → somewhere x (p ++ q) ≡ (somewhere x p || somewhere x q)
unfolding somewhere
somewhere-append x [] q = refl
somewhere-append x (s ∷ p) q = ground (arith, somewhere-append x p q)

contains_here : (x : Text) (xs : List Text) → contains x (x ∷ xs) ≡ true
unfolding contains
contains_here x xs = ground (arith, text_eq_refl x)

contains_cons : (x y : Text) (ys : List Text) → contains x ys ≡ true → contains x (y ∷ ys) ≡ true
unfolding contains
contains_cons x y ys h = ground (arith, h)

distinct_cons :
    (x : Text) (xs : List Text)
    → contains x xs ≢ true
    → distinct xs ≡ true
    → distinct (x ∷ xs) ≡ true
unfolding distinct
distinct_cons x xs h d = elim (Bool-cases (contains x xs)) [
  | inl e ↦ absurd (h e)
  | inr e ↦ ground (arith, e, d)
]

module _ (index : ResolverIndex) where
  abbrev bases_of : Text → List Text
  bases_of t = (index.base_state t).bases

  -- From a base of the type, or from one of that base's ancestors, the type derives.
  Derives-through :
      {t p x : Text} → contains p (bases_of t) ≡ true → Derives index p x → Derives index t x
  Derives-through c (direct d) = further (direct c) d
  Derives-through c (further d e) = further (Derives-through c d) e

  abbrev Reaches : Text → Text → Type 0
  Reaches p x = (x ≡ p) ⊎ Derives index p x

  gathered_source :
      (n : ℕ) (t x : Text) (ps : List Text) (ms : List (List Text))
      → ((p : Text) (m : List Text)
          → linearize index n p ≡ some m
          → contains x m ≡ true
          → Reaches p x)
      → ((p : Text) → contains p ps ≡ true → contains p (bases_of t) ≡ true)
      → gather ps (linearize index n) ≡ some ms
      → somewhere x ms ≡ true
      → Derives index t x
  gathered_source n t x [] ms up sub g s = absurd (unfold somewhere in ground (arith, g, s))
  gathered_source n t x (p ∷ ps) ms up sub g s =
      let (m, rest, e, k, same) = gather_parts (linearize index n) p ps ms g in
      let s' : somewhere x (m ∷ rest) ≡ true = rw same at s in
      let base : contains p (bases_of t) ≡ true = sub p (contains_here p ps) in
      elim (Bool-cases (contains x m)) [
        | inl here ↦ elim (up p m e here) [
          | inl same' ↦ direct (rw same' base)
          | inr d ↦ Derives-through base d
        ]
        | inr gone ↦
            gathered_source n t x ps rest up (λ q c. sub q (contains_cons q p ps c)) k
              (unfold somewhere in ground (arith, s', gone))
      ]

  merge_source :
      (n : ℕ) (t x : Text) (ms : List (List Text)) (rest : List Text)
      → ((p : Text) (m : List Text)
          → linearize index n p ≡ some m
          → contains x m ≡ true
          → Reaches p x)
      → gather (bases_of t) (linearize index n) ≡ some ms
      → c3_merge (ms ++ bases_of t ∷ []) ≡ some rest
      → contains x rest ≡ true
      → Derives index t x
  merge_source n t x ms rest up g e c =
      let covered = (c3_merge-IsMerge (ms ++ bases_of t ∷ []) rest e).covered x in
      elim (Bool-cases (somewhere x ms)) [
        | inl here ↦ gathered_source n t x (bases_of t) ms up (λ p h. h) g here
        | inr gone ↦
            let base : contains x (bases_of t) ≡ true =
              unfold somewhere in
              ground (arith, c, covered, gone, somewhere-append x ms (bases_of t ∷ [])) in
            direct base
      ]

  -- Each member of an order is the type or one that it derives from.
  order_members :
      (n : ℕ) (p x : Text) (l : List Text)
      → linearize index n p ≡ some l
      → contains x l ≡ true
      → Reaches p x
  order_members zero p x l h c = absurd (unfold linearize in ground (arith, h))
  order_members (suc n) p x l h c =
      let (sound, ms, g, r) = linearize_parts index n p l h in
      let (rest, e, same) = headed_parts p (c3_merge (ms ++ bases_of p ∷ [])) l r in
      let c' : contains x (p ∷ rest) ≡ true = rw same at c in
      elim (Bool-cases (text_eq x p)) [
        | inl here ↦ inl (text_eq_sound x p here)
        | inr there ↦ inr (
            merge_source n p x ms rest (λ q m. order_members n q x m) g e
              (contains-later x p rest there c'))
      ]

  -- Python's rules for the order `l` of the type `t`.
  pub record IsMro (t : Text) (l : List Text) : Type 0 where
    pub rest : List Text
    pub headed_by_type : l ≡ t ∷ rest
    pub once : distinct l ≡ true
    pub bases_in_order : Sublist (bases_of t) rest
    pub base_orders :
        (p : Text)
        → contains p (bases_of t) ≡ true
        → (m : List Text) × Linear index p m × Sublist m rest

  gathered_order :
      (n : ℕ) (ps : List Text) (ms : List (List Text)) (r : List Text)
      → gather ps (linearize index n) ≡ some ms
      → All (λ s. Sublist s r) ms
      → (p : Text) → contains p ps ≡ true
      → (m : List Text) × Linear index p m × Sublist m r
  gathered_order n [] ms r g h p c = absurd (unfold contains in ground (arith, c))
  gathered_order n (q ∷ ps) ms r g h p c =
      let (m, rest, e, k, same) = gather_parts (linearize index n) q ps ms g in
      let h' : All (λ s. Sublist s r) (m ∷ rest) = subst (All (λ s. Sublist s r)) same h in
      elim (Bool-cases (text_eq p q)) [
        | inl here ↦ (m, (n, rw (text_eq_sound p q here) e), h'.0)
        | inr there ↦ gathered_order n ps rest r k h'.1 p (contains-later p q ps there c)
      ]

  -- An order of a type begins with the type, names no type twice, has the direct bases in the
  -- order of their declaration, and has the order of each base as a subsequence.
  pub Linear-IsMro : (t : Text) (l : List Text) → Linear index t l → IsMro t l
  Linear-IsMro t l (zero, h) = absurd (unfold linearize in ground (arith, h))
  Linear-IsMro t l (suc n, h) =
      let (sound, ms, g, r) = linearize_parts index n t l h in
      let (rest, e, same) = headed_parts t (c3_merge (ms ++ bases_of t ∷ [])) l r in
      let merge = c3_merge-IsMerge (ms ++ bases_of t ∷ []) rest e in
      record {
        rest = rest;
        headed_by_type = same;
        once = rw same (
            distinct_cons t rest
              (λ c.
                cyclic_has_no_order index (suc n) t l
                  (merge_source n t t ms rest (λ q m. order_members n q t m) g e c) h)
              merge.once);
        bases_in_order =
            (All-append_right (λ s. Sublist s rest) ms (bases_of t ∷ []) merge.ordered).0;
        base_orders =
            gathered_order n (bases_of t) ms rest g
              (All-append_left (λ s. Sublist s rest) ms (bases_of t ∷ []) merge.ordered);
      }
