-- ===== src/Resolver/Names/Scopes.antt =====
-- The enclosing scopes that a bare name is looked up in.
use my_kg_codebase.Prelude.{
  ℕ, zero, suc, ◌<◌, ◌≡◌, refl, true, Option, none, some, List, [], ◌∷◌, arith, Bool-cases, inl,
  inr, length, tail, All,
}
use my_kg_codebase.Prelude.Text.{Text, starts_with, has_text, before_last}
use my_kg_codebase.Resolver.Names.{locals, dotted, scope_loop, lexical_scopes}

-- What stands before a separator is shorter than the text that has it.
length-before_last :
    (p : ℕ) (ps s : Text) → has_text (p ∷ ps) s ≡ true → length (before_last (p ∷ ps) s) < length s
unfolding has_text before_last
length-before_last p ps [] h = ground arith
length-before_last p ps (c ∷ s) h = ground (arith, length-before_last p ps s)

starts_with_self : (s : Text) → starts_with s s ≡ true
unfolding starts_with
starts_with_self [] = refl
starts_with_self (c ∷ s) = ground (arith, starts_with_self s)

starts_with_trans :
    (a b c : Text) → starts_with a b ≡ true → starts_with b c ≡ true → starts_with a c ≡ true
unfolding starts_with
starts_with_trans a b [] h k = refl
starts_with_trans a [] (z ∷ c) h k = ground arith
starts_with_trans [] (y ∷ b) (z ∷ c) h k = ground arith
starts_with_trans (x ∷ a) (y ∷ b) (z ∷ c) h k = ground (arith, starts_with_trans a b c)

starts_with-before_last : (sep s : Text) → starts_with s (before_last sep s) ≡ true
unfolding starts_with before_last
starts_with-before_last sep [] = refl
starts_with-before_last sep (c ∷ s) =
    ground (arith, starts_with-before_last sep s, starts_with_self s)

-- The first scope is shorter than the bound, and each other is shorter than the one before it.
abbrev pub Shrinks : ℕ → List Text → Type 0
Shrinks bound [] = Unit
Shrinks bound (s ∷ outer) = (length s < bound) × Shrinks (length s) outer

-- The scope encloses the owner, and lies in the module.
abbrev pub Encloses : Text → Text → Text → Type 0
Encloses owner module_name scope =
    (starts_with owner scope ≡ true) × (starts_with scope (dotted module_name []) ≡ true)

-- A walk from some scope outwards that has ended.
abbrev pub EndedWalk : Text → Text → ℕ → Option (List Text) → Type 0
EndedWalk owner module_name bound found =
    (scopes : List Text) × (found ≡ some scopes)
    × All (Encloses owner module_name) scopes
    × Shrinks bound scopes

walk_out :
    (owner module_name scope : Text) (bound : ℕ) (found : Option (List Text))
    → Encloses owner module_name scope
    → length scope < bound
    → EndedWalk owner module_name (length scope) found
    → EndedWalk owner module_name bound
        (elim found [ none ↦ none | some outer ↦ some (scope ∷ outer) ])
walk_out owner module_name scope bound found e l (scopes, ended, enclosing, shrinking) =
    (scope ∷ scopes, rw ended refl, (e, enclosing), (l, shrinking))

scope_loop-EndedWalk :
    (rounds : ℕ) (owner module_name scope : Text) (bound : ℕ)
    → length scope < rounds
    → length scope < bound
    → starts_with owner scope ≡ true
    → EndedWalk owner module_name bound (scope_loop rounds module_name scope)
unfolding scope_loop
scope_loop-EndedWalk zero owner module_name scope bound r b h = absurd (omega arith)
scope_loop-EndedWalk (suc rounds) owner module_name scope bound r b h =
    elim (Bool-cases (starts_with scope (dotted module_name []))) [
      | inr out ↦ rw (out, scope_loop) ([], refl, tt, tt)
      | inl inside ↦ elim (Bool-cases (has_text locals scope)) [
        | inr top ↦ rw (inside, top, scope_loop) (scope ∷ [], refl, ((h, inside), tt), (b, tt))
        | inl nested ↦
            let shorter = length-before_last b'.' (tail locals) scope nested in
            rw (inside, nested, scope_loop)
              (walk_out owner module_name scope bound _ (h, inside) b
                (scope_loop-EndedWalk rounds owner module_name (before_last locals scope)
                  (length scope) (omega (arith, shorter)) shorter
                  (starts_with_trans owner scope (before_last locals scope) h
                    (starts_with-before_last locals scope))))
      ]
    ]

-- The walk over the enclosing scopes ends for every owner and module, whatever their names: it
-- visits scopes that enclose the owner and lie in the module, each shorter than the last.
pub lexical_scopes-EndedWalk :
    (owner module_name : Text)
    → EndedWalk owner module_name (suc (length owner)) (lexical_scopes owner module_name)
unfolding lexical_scopes
lexical_scopes-EndedWalk owner module_name =
    scope_loop-EndedWalk (suc (length owner)) owner module_name owner (suc (length owner))
      (omega arith) (omega arith) (starts_with_self owner)
