-- ===== src/Lifecycle/Activated.antt =====
-- What an activation has done when it ends, and at each moment before: activate_registry of
-- src/codekg/graph_lifecycle.py.
use my_kg_codebase.Prelude.{
  ℕ, ◌≡◌, refl, sym, subst, Bool, true, false, not, ◌⊎◌, inl, inr, Option, some, List, [], ◌∷◌,
  ◌++◌, All, Bool-cases, Option-cases,
}
use my_kg_codebase.Prelude.Text.{Text, text_eq}
use my_kg_codebase.Prelude.Dict.{lookup}
use my_kg_codebase.Lifecycle.Files.{
  FilePath, full_path, previous_path, Payload, Disk, not_siblings, not_distinct, invalid_registry,
  failed_backend, Result, ok, err, Action, and_then, pure,
}
use my_kg_codebase.Lifecycle.Activate.{
  Activation, guard, same_parent, switch, reject_symlinks, reject_symlink_path, validated,
  activate_registry,
}
use my_kg_codebase.Lifecycle.Atomic.{Ensures}
use my_kg_codebase.Lifecycle.Explained.{IsExplained, Explained}
use my_kg_codebase.Lifecycle.Safe.{
  Checks, Checks-then, guard-Checks, IsSwitched, WasSafe, switch-Ensures, switch-Explained,
}

module _ (fails : ℕ → Bool) (random : ℕ → Text) (is_symlink : Text → Option Bool)
    {Registry : Type 0} (load : Payload → Option Registry) (graphs : Registry → ℕ)
    (validates : Registry → Bool) where
  -- The file holds a registry that passes the validator.
  abbrev pub IsValid : FilePath → Disk → Payload → Registry → Type 0
  IsValid path d payload registry =
      (lookup (full_path path) d.files ≡ some payload)
      × (load payload ≡ some registry)
      × (validates registry ≡ true)

  pub reject_symlinks-Checks :
      (current : Text) (parts : List Text) (d : Disk)
      → Checks
          (λ _. Unit {0})
          d
          (reject_symlinks fails random is_symlink load graphs validates current parts d)
  unfolding reject_symlinks
  reject_symlinks-Checks current [] d = (tt, refl)
  reject_symlinks-Checks current (part ∷ parts) d =
      let next = current ++ b'/' ∷ part in
      elim (Option-cases (is_symlink next)) [
        | inl e ↦ rw (reject_symlinks, e) refl
        | inr (true, e) ↦ rw (reject_symlinks, e) refl
        | inr (false, e) ↦ rw (reject_symlinks, e) (reject_symlinks-Checks next parts d)
      ]

  pub reject_symlink_path-Checks :
      (path : FilePath) (d : Disk)
      → Checks
          (λ _. Unit {0})
          d
          (reject_symlink_path fails random is_symlink load graphs validates path d)
  unfolding reject_symlink_path
  reject_symlink_path-Checks path d = reject_symlinks-Checks [] (path.parent ++ path.name ∷ []) d

  pub validated-Checks :
      (path : FilePath) (d : Disk)
      → Checks
          (λ registry. (payload : Payload) × IsValid path d payload registry)
          d
          (validated fails random is_symlink load graphs validates path d)
  unfolding validated
  validated-Checks path d =
      let P = λ (registry : Registry). (payload : Payload) × IsValid path d payload registry in
      let run = validated fails random is_symlink load graphs validates path d in
      elim (Option-cases (lookup (full_path path) d.files)) [
        | inl e ↦
            let done : run ≡ (err invalid_registry, d) = rw (validated, e) refl in
            subst (Checks P d) (sym done) refl
        | inr (payload, e) ↦ elim (Option-cases (load payload)) [
          | inl f ↦
              let done : run ≡ (err invalid_registry, d) = rw (validated, e, f) refl in
              subst (Checks P d) (sym done) refl
          | inr (registry, f) ↦ elim (Bool-cases (validates registry)) [
            | inl v ↦
                let done : run ≡ (ok registry, d) = rw (validated, e, f, v) refl in
                subst (Checks P d) (sym done) ((payload, (e, f, v)), refl)
            | inr v ↦
                let done : run ≡ (err failed_backend, d) = rw (validated, e, f, v) refl in
                subst (Checks P d) (sym done) refl
          ]
        ]
      ]

  module _ (candidate active : FilePath) (d : Disk) where
    -- In each state that a crash could have left, and now
    abbrev pub StaysSafe : Payload → Disk → Type 0
    StaysSafe payload e =
        WasSafe fails random candidate active payload d e.files
        × All (WasSafe fails random candidate active payload d) e.history

    abbrev pub IsActivation : Result Activation × Disk → Type 0
    IsActivation (ok activation, e) =
        (payload : Payload) × (registry : Registry) × IsValid candidate d payload registry
        × (activation.generation_count ≡ graphs registry)
        × IsSwitched fails random candidate active payload d e.files
        × StaysSafe payload e
    IsActivation (err failure, e) =
        (e ≡ d)
        ⊎ ((payload : Payload) × (registry : Registry) × IsValid candidate d payload registry
            × StaysSafe payload e
            × IsExplained fails d.operations failure e)

    after_check :
        {A : Type 0} (P : A → Type 0) (r : Result A × Disk) (f : A → Action Activation)
        → Checks P d r
        → ((a : A) → P a → IsActivation (f a d))
        → IsActivation (and_then r f)
    after_check P r f = Checks-then IsActivation P d r f (λ _. inl refl)

    after_switch :
        (payload : Payload) (registry : Registry) (r : Result (Option Payload) × Disk)
        (f : Option Payload → Activation)
        → IsValid candidate d payload registry
        → ((old : Option Payload) → (f old).generation_count ≡ graphs registry)
        → Ensures
            (WasSafe fails random candidate active payload d)
            (WasSafe fails random candidate active payload d)
            (λ _ e. IsSwitched fails random candidate active payload d e.files)
            r
        → Explained fails d.operations r
        → IsActivation (and_then r (λ old. pure (f old)))
    after_switch payload registry (ok old, e) f valid counted (switched, safe) _ =
        (payload, registry, valid, counted old, switched, safe)
    after_switch payload registry (err failure, e) f valid counted safe why =
        inr (payload, registry, valid, safe, why)

-- For every disk, whichever of its operations fail, every pair of paths, loader and validator: if
-- `activate_registry` returns, the candidate held a registry that passed the validator, its bytes
-- are now active, and what was active before is kept as the previous registry. If it raises, either
-- nothing at all has changed, or the candidate was valid, the error is one of the operating system,
-- and one of the operations on files that the call made, reads included, failed. In every state on
-- the way, which a crash could leave, the active registry is the old one, or the valid candidate
-- with the old one kept.
pub activate_registry-IsActivation :
    (fails : ℕ → Bool) (random : ℕ → Text) (is_symlink : Text → Option Bool) {Registry : Type 0}
    (load : Payload → Option Registry) (graphs : Registry → ℕ) (validates : Registry → Bool)
    (candidate active : FilePath) (d : Disk)
    → d.history ≡ []
    → IsActivation fails random is_symlink load graphs validates candidate active d
        (activate_registry fails random is_symlink load graphs validates candidate active d)
unfolding activate_registry
activate_registry-IsActivation fails random is_symlink {Registry} load graphs validates candidate
      active d start =
    let links = reject_symlink_path fails random is_symlink load graphs validates in
    let linked = reject_symlink_path-Checks fails random is_symlink load graphs validates in
    let valid = λ (registry : Registry).
      (payload : Payload) × IsValid fails random is_symlink load graphs validates candidate d
        payload registry in
    after_check fails random is_symlink load graphs validates candidate active d (λ _. Unit {0})
      (links candidate d) _ (linked candidate d)
      (λ _ _.
        after_check fails random is_symlink load graphs validates candidate active d (λ _. Unit {0})
          (links active d) _ (linked active d)
          (λ _ _.
            after_check fails random is_symlink load graphs validates candidate active d
              (λ _. Unit {0}) (links (previous_path active) d) _ (linked (previous_path active) d)
              (λ _ _.
                after_check fails random is_symlink load graphs validates candidate active d
                  (λ _. same_parent candidate active ≡ true)
                  (guard (same_parent candidate active) not_siblings d) _
                  (guard-Checks (same_parent candidate active) not_siblings d)
                  (λ _ _.
                    let distinct = not (text_eq (full_path candidate) (full_path active)) in
                    after_check fails random is_symlink load graphs validates candidate active d
                      (λ _. distinct ≡ true) (guard distinct not_distinct d) _
                      (guard-Checks distinct not_distinct d)
                      (λ _ _.
                        after_check fails random is_symlink load graphs validates candidate active d
                          valid
                          (validated fails random is_symlink load graphs validates candidate d) _
                          (validated-Checks fails random is_symlink load graphs validates candidate
                            d)
                          (λ registry found.
                            after_switch fails random is_symlink load graphs validates candidate
                              active d found.0 registry (switch fails random candidate active d) _
                              found.1 (λ old. refl)
                              (switch-Ensures fails random candidate active found.0 d found.1.0 (
                                subst (All (WasSafe fails random candidate active found.0 d))
                                  (sym start) tt))
                              (switch-Explained fails random candidate active found.0 d
                                found.1.0)))))))
