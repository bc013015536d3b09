-- ===== src/Prelude/Ordered.antt =====
-- Python's `OrderedDict` as the program's caches use it: a dict whose front is dropped first.
use mathlib.Core.Path.{◌≡◌, refl, sym, subst}
use mathlib.Core.List.{[], ◌∷◌, ◌++◌}
use mathlib.Core.Option.{none, some}
use mathlib.Core.Logic.{inl, inr}
use Prim.Native.Nat.{ℕ, ◌≤◌, ◌<◌, ◌+◌}
use native.Mathlib.Omega.{arith}
use my_kg_codebase.Prelude.Tests.{if◌then◌else◌, ltb, Option-cases, Bool-cases}
use my_kg_codebase.Prelude.Lists.{length, tail, length-append}
use my_kg_codebase.Prelude.Text.{Text, text_eq, text_eq_sound}
use my_kg_codebase.Prelude.Dict.{Dict, lookup, insert, remove}

module _ {ℓ} {V : Type ℓ} where
  -- d.move_to_end(k)
  unfoldable pub move_to_end : Text → Dict V → Dict V
  unfolding lookup remove
  move_to_end k d = elim (lookup k d) [ none ↦ d | some v ↦ remove k d ++ (k, v) ∷ [] ]

  -- d[k] = v; d.move_to_end(k); and d.popitem(last=False) past the limit
  unfoldable pub store_bounded : ℕ → Text → V → Dict V → Dict V
  unfolding move_to_end insert
  store_bounded limit k v d =
      let newest = move_to_end k (insert k v d) in
      if ltb limit (length newest) then tail newest else newest

  move_absent : (k : Text) (d : Dict V) → lookup k d ≡ none → move_to_end k d ≡ d
  unfolding move_to_end
  move_absent k d e = rw (e, move_to_end) refl

  move_present :
      (k : Text) (d : Dict V) (v : V)
      → lookup k d ≡ some v
      → move_to_end k d ≡ remove k d ++ (k, v) ∷ []
  unfolding move_to_end
  move_present k d v e = rw (e, move_to_end) refl

  -- Every entry satisfies the predicate.
  abbrev pub Entries {κ} : (Text → V → Type κ) → Dict V → Type κ
  Entries P [] = Unit
  Entries P ((k, v) ∷ d) = P k v × Entries P d

module _ {ℓ κ} {V : Type ℓ} (P : Text → V → Type κ) where
  pub Entries-lookup : (k : Text) (d : Dict V) {v : V} → Entries P d → lookup k d ≡ some v → P k v
  unfolding lookup
  Entries-lookup k [] h e = absurd (ground (arith, e))
  Entries-lookup k ((j, w) ∷ d) {v} h e = elim (Bool-cases (text_eq j k)) [
    | inl same ↦
        let found : some w ≡ some v = rw same at e in
        subst (P k) (cc) (subst (λ x. P x w) (text_eq_sound j k same) h.0)
    | inr other ↦ Entries-lookup k d h.1 (rw other at e)
  ]

  Entries-append : (d e : Dict V) → Entries P d → Entries P e → Entries P (d ++ e)
  Entries-append [] e h k = k
  Entries-append ((j, v) ∷ d) e h k = (h.0, Entries-append d e h.1 k)

  Entries-remove : (k : Text) (d : Dict V) → Entries P d → Entries P (remove k d)
  unfolding remove
  Entries-remove k [] h = tt
  Entries-remove k ((j, v) ∷ d) h = elim (Bool-cases (text_eq j k)) [
    | inl e ↦ rw e (Entries-remove k d h.1)
    | inr e ↦ rw e (h.0, Entries-remove k d h.1)
  ]

  pub Entries-insert :
      (k : Text) (v : V) (d : Dict V) → P k v → Entries P d → Entries P (insert k v d)
  unfolding insert
  Entries-insert k v [] p h = (p, tt)
  Entries-insert k v ((j, w) ∷ d) p h = elim (Bool-cases (text_eq j k)) [
    | inl e ↦ rw e (p, h.1)
    | inr e ↦ rw e (h.0, Entries-insert k v d p h.1)
  ]

  pub Entries-move_to_end : (k : Text) (d : Dict V) → Entries P d → Entries P (move_to_end k d)
  unfolding move_to_end
  Entries-move_to_end k d h = elim (Option-cases (lookup k d)) [
    | inl e ↦ subst (Entries P) (sym (move_absent k d e)) h
    | inr (v, e) ↦ subst (Entries P) (sym (move_present k d v e)) (
        Entries-append (remove k d) ((k, v) ∷ []) (Entries-remove k d h)
          (Entries-lookup k d h e, tt))
  ]

  Entries-tail : (d : Dict V) → Entries P d → Entries P (tail d)
  Entries-tail [] h = tt
  Entries-tail ((k, v) ∷ d) h = h.1

  pub Entries-store_bounded :
      (limit : ℕ) (k : Text) (v : V) (d : Dict V)
      → P k v
      → Entries P d
      → Entries P (store_bounded limit k v d)
  unfolding store_bounded
  Entries-store_bounded limit k v d p h =
      let kept = Entries-move_to_end k (insert k v d) (Entries-insert k v d p h) in
      elim (Bool-cases (ltb limit (length (move_to_end k (insert k v d))))) [
        | inl e ↦ rw e (Entries-tail (move_to_end k (insert k v d)) kept)
        | inr e ↦ rw e kept
      ]

module _ {ℓ} {V : Type ℓ} where
  length-insert-le : (k : Text) (v : V) (d : Dict V) → length (insert k v d) ≤ length d + 1
  unfolding insert
  length-insert-le k v [] = omega arith
  length-insert-le k v ((j, w) ∷ d) = ground (arith, length-insert-le k v d)

  length-remove-le : (k : Text) (d : Dict V) → length (remove k d) ≤ length d
  unfolding remove
  length-remove-le k [] = omega arith
  length-remove-le k ((j, w) ∷ d) = ground (arith, length-remove-le k d)

  length-remove-lt :
      (k : Text) (d : Dict V) (v : V) → lookup k d ≡ some v → length (remove k d) < length d
  unfolding remove lookup
  length-remove-lt k [] v e = ground (arith, e)
  length-remove-lt k ((j, w) ∷ d) v e = ground (arith, length-remove-lt k d v, length-remove-le k d)

  pub length-move_to_end-le : (k : Text) (d : Dict V) → length (move_to_end k d) ≤ length d
  length-move_to_end-le k d = elim (Option-cases (lookup k d)) [
    | inl e ↦ rw (move_absent k d e) (omega arith)
    | inr (v, e) ↦
        rw (move_present k d v e)
          (omega (arith, length-remove-lt k d v e, length-append (remove k d) ((k, v) ∷ [])))
  ]

  length-tail-le : (n : ℕ) (d : Dict V) → length d ≤ n + 1 → length (tail d) ≤ n
  length-tail-le n [] h = omega arith
  length-tail-le n (x ∷ d) h = omega arith

  -- Storing in a bounded cache keeps the bound.
  pub length-store_bounded-le :
      (limit : ℕ) (k : Text) (v : V) (d : Dict V)
      → length d ≤ limit
      → length (store_bounded limit k v d) ≤ limit
  unfolding store_bounded
  length-store_bounded-le limit k v d h =
      let newest : Dict V = move_to_end k (insert k v d) in
      ground (
        arith,
        length-move_to_end-le k (insert k v d),
        length-insert-le k v d,
        length-tail-le limit newest,
      )
