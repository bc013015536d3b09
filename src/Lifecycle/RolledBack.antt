-- ===== src/Lifecycle/RolledBack.antt =====
-- A rollback restores what was active: rollback_registry of src/codekg/graph_lifecycle.py.
use my_kg_codebase.Prelude.{
  ℕ, ◌≡◌, refl, sym, ◌∙◌, subst, Bool, true, ◌⊎◌, inl, inr, Option, none, some, [], arith, All,
}
use my_kg_codebase.Prelude.Text.{Text}
use my_kg_codebase.Prelude.Dict.{Dict, lookup, insert, remove}
use my_kg_codebase.Lifecycle.Files.{
  FilePath, full_path, previous_path, Payload, Disk, not_siblings, Result, ok, err, Action,
  and_then, ◌>>=◌, pure, read_bytes, temporary_path, atomic_write,
}
use my_kg_codebase.Lifecycle.Activate.{
  Activation, Rollback, previous_or, guard, same_parent, reject_symlink_path, validated,
  activate_registry, rollback_registry,
}
use my_kg_codebase.Lifecycle.Atomic.{Always, Ensures, Ensures-and_then, atomic_write-Ensures}
use my_kg_codebase.Lifecycle.Distinct.{path-temporary_path}
use my_kg_codebase.Lifecycle.Writes.{lookup-insert_other, lookup-insert_self, lookup-remove_other}
use my_kg_codebase.Lifecycle.Safe.{Checks-then, guard-Checks, read_bytes-Ensures}
use my_kg_codebase.Lifecycle.Explained.{
  IsExplained, Explained, Explained-and_then, read_bytes-Explained, atomic_write-Explained,
}
use my_kg_codebase.Lifecycle.Activated.{
  IsValid, IsActivation, reject_symlink_path-Checks, validated-Checks,
  activate_registry-IsActivation,
}

and_then_assoc :
    {A B C : Type 0} (r : Result A × Disk) (f : A → Action B) (g : B → Action C)
    → and_then (and_then r f) g ≡ and_then r (λ a d. and_then (f a d) g)
and_then_assoc (ok a, d) f g = refl
and_then_assoc (err failure, d) f g = refl

module _ (fails : ℕ → Bool) (random : ℕ → Text) (is_symlink : Text → Option Bool)
    {Registry : Type 0} (load : Payload → Option Registry) (graphs : Registry → ℕ)
    (validates : Registry → Bool) (active previous : FilePath) (d : Disk) where
  -- The active registry is the one before or the restored one.
  abbrev pub IsEither : Payload → Dict Payload → Type 0
  IsEither payload files =
      (lookup (full_path active) files ≡ lookup (full_path active) d.files)
      ⊎ (lookup (full_path active) files ≡ some payload)

  abbrev pub IsRollback : Result Rollback × Disk → Type 0
  IsRollback (ok rollback, e) =
      (payload : Payload) × (registry : Registry) × IsValid fails random is_symlink load graphs
        validates previous d payload registry
      × (rollback.restored_graphs ≡ graphs registry)
      × (lookup (full_path active) e.files ≡ some payload)
      × All (IsEither payload) e.history
  IsRollback (err failure, e) =
      (e ≡ d)
      ⊎ ((payload : Payload) × (registry : Registry) × IsValid fails random is_symlink load graphs
            validates previous d payload registry
          × IsEither payload e.files
          × All (IsEither payload) e.history
          × IsExplained fails d.operations failure e)

  IsEither-same :
      (payload : Payload) (files later : Dict Payload)
      → lookup (full_path active) later ≡ lookup (full_path active) files
      → IsEither payload files
      → IsEither payload later
  IsEither-same payload files later e (inl h) = inl (e ∙ h)
  IsEither-same payload files later e (inr h) = inr (e ∙ h)

  abbrev restore : Action (Unit {0})
  restore = read_bytes fails random previous >>= λ payload. atomic_write fails random active payload

  write_active-Ensures :
      (payload : Payload) (e : Disk)
      → Always (IsEither payload) (IsEither payload) e
      → Ensures
          (IsEither payload)
          (IsEither payload)
          (λ _ f. lookup (full_path active) f.files ≡ some payload)
          (atomic_write fails random active payload e)
  write_active-Ensures payload e h =
      atomic_write-Ensures fails random (IsEither payload) (IsEither payload) (λ files h. h) active
        payload e
        (λ files n written.
          let name = temporary_path fails random active n in
          IsEither-same payload files (insert name written files) (
            lookup-insert_other (full_path active) name written files
              (path-temporary_path fails random active n)))
        (λ files n.
          let name = temporary_path fails random active n in
          IsEither-same payload files (remove name files) (
            lookup-remove_other (full_path active) name files
              (path-temporary_path fails random active n)))
        (λ files h. inr (lookup-insert_self (full_path active) payload files))
        (path-temporary_path fails random active e.operations) h

  restore-Ensures :
      (payload : Payload)
      → lookup (full_path previous) d.files ≡ some payload
      → d.history ≡ []
      → Ensures
          (IsEither payload)
          (IsEither payload)
          (λ _ e. lookup (full_path active) e.files ≡ some payload)
          (restore d)
  restore-Ensures payload found start =
      let either = IsEither payload in
      Ensures-and_then either either (λ read _. read ≡ payload)
        (λ _ e. lookup (full_path active) e.files ≡ some payload)
        (read_bytes fails random previous d) (λ read. atomic_write fails random active read)
        (read_bytes-Ensures fails random either either previous d payload found
          (inl refl, subst (All either) (sym start) tt))
        (λ read e same he.
          subst
            (λ p.
              Ensures either either (λ _ f. lookup (full_path active) f.files ≡ some payload)
                (atomic_write fails random active p e))
            (sym same) (write_active-Ensures payload e he))

  restore-Explained :
      (payload : Payload)
      → lookup (full_path previous) d.files ≡ some payload
      → Explained fails d.operations (restore d)
  restore-Explained payload found =
      Explained-and_then fails random d.operations (read_bytes fails random previous d)
        (λ read. atomic_write fails random active read)
        (read_bytes-Explained fails random previous payload d.operations d found (omega arith))
        (λ read e he. atomic_write-Explained fails random active read d.operations e he)

  after_restore :
      (payload : Payload) (registry : Registry) (r : Result (Unit {0}) × Disk) (rollback : Rollback)
      → IsValid fails random is_symlink load graphs validates previous d payload registry
      → rollback.restored_graphs ≡ graphs registry
      → Ensures
          (IsEither payload)
          (IsEither payload)
          (λ _ e. lookup (full_path active) e.files ≡ some payload)
          r
      → Explained fails d.operations r
      → IsRollback (and_then r (λ _. pure rollback))
  after_restore payload registry (ok u, e) rollback valid counted (there, (now, past)) _ =
      (payload, registry, valid, counted, there, past)
  after_restore payload registry (err failure, e) rollback valid counted (now, past) why =
      inr (payload, registry, valid, now, past, why)

-- For every disk, whichever of its operations fail, every pair of paths, loader and validator: if
-- `rollback_registry` returns, the previous registry passed the validator, and its bytes are now
-- active. If it raises, either nothing at all has changed, or the previous registry was valid, the
-- error is one of the operating system, and one of the operations on files that the call made, the
-- read included, failed. In every state on the way the active registry is the one before or the
-- restored one.
pub rollback_registry-IsRollback :
    (fails : ℕ → Bool) (random : ℕ → Text) (is_symlink : Text → Option Bool) {Registry : Type 0}
    (load : Payload → Option Registry) (graphs : Registry → ℕ) (validates : Registry → Bool)
    (active : FilePath) (given : Option FilePath) (d : Disk)
    → d.history ≡ []
    → IsRollback fails random is_symlink load graphs validates active
        (previous_or active given)
        d
        (rollback_registry fails random is_symlink load graphs validates active given d)
unfolding rollback_registry
rollback_registry-IsRollback fails random is_symlink {Registry} load graphs validates active given d
      start =
    let previous = previous_or active given in
    let links = reject_symlink_path fails random is_symlink load graphs validates in
    let linked = reject_symlink_path-Checks fails random is_symlink load graphs validates in
    let goal = IsRollback fails random is_symlink load graphs validates active previous d in
    let valid = λ (registry : Registry).
      (payload : Payload) × IsValid fails random is_symlink load graphs validates previous d payload
        registry in
    Checks-then goal (λ _. Unit {0}) d (links active d) _ (λ _. inl refl) (linked active d)
      (λ _ _.
        Checks-then goal (λ _. Unit {0}) d (links previous d) _ (λ _. inl refl) (linked previous d)
          (λ _ _.
            Checks-then goal (λ _. same_parent active previous ≡ true) d
              (guard (same_parent active previous) not_siblings d) _ (λ _. inl refl)
              (guard-Checks (same_parent active previous) not_siblings d)
              (λ _ _.
                Checks-then goal valid d
                  (validated fails random is_symlink load graphs validates previous d) _
                  (λ _. inl refl)
                  (validated-Checks fails random is_symlink load graphs validates previous d)
                  (λ registry found.
                    let done : Rollback = record {
                      active_registry = full_path active;
                      restored_graphs = graphs registry;
                    } in
                    subst goal
                      (and_then_assoc (read_bytes fails random previous d)
                        (λ payload. atomic_write fails random active payload) (λ _. pure done))
                      (after_restore fails random is_symlink load graphs validates active previous d
                        found.0 registry
                        (restore fails random is_symlink load graphs validates active previous d d)
                        done found.1 refl
                        (restore-Ensures fails random is_symlink load graphs validates active
                          previous d found.0 found.1.0 start)
                        (restore-Explained fails random is_symlink load graphs validates active
                          previous d found.0 found.1.0))))))

-- An activation that returns, followed by a rollback that returns, restores the bytes of the
-- registry that was active before, if there was one.
pub rollback-activate :
    (fails : ℕ → Bool) (random : ℕ → Text) (is_symlink : Text → Option Bool) {Registry : Type 0}
    (load : Payload → Option Registry) (graphs : Registry → ℕ) (validates : Registry → Bool)
    (candidate active : FilePath) (d e f : Disk) (old : Payload) (a : Activation) (r : Rollback)
    → d.history ≡ []
    → lookup (full_path active) d.files ≡ some old
    → activate_registry fails random is_symlink load graphs validates candidate active d ≡ (ok a, e)
    → rollback_registry fails random is_symlink load graphs validates active none
        (record e { history = [] })
      ≡ (ok r, f)
    → lookup (full_path active) f.files ≡ some old
rollback-activate fails random is_symlink load graphs validates candidate active d e f old a r start
      had activated rolled =
    let fresh : Disk = record e { history = [] } in
    let first =
      subst (IsActivation fails random is_symlink load graphs validates candidate active d)
        activated
        (activate_registry-IsActivation fails random is_symlink load graphs validates candidate
          active d start) in
    let second =
      subst
        (IsRollback fails random is_symlink load graphs validates active (previous_path active)
          fresh)
        rolled
        (rollback_registry-IsRollback fails random is_symlink load graphs validates active none
          fresh refl) in
    elim first.4.1 [
      | inl none_before ↦
          let clash : some old ≡ none = sym had ∙ none_before in absurd (ground (arith, clash))
      | inr kept ↦ second.4 ∙ sym second.2.0 ∙ kept ∙ had
    ]
