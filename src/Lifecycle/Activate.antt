-- ===== src/Lifecycle/Activate.antt =====
-- activate_registry and rollback_registry of src/codekg/graph_lifecycle.py.
use my_kg_codebase.Prelude.{
  ℕ, Bool, true, false, not, Option, none, some, List, [], ◌∷◌, ◌++◌, if◌then◌else◌, is_some,
}
use my_kg_codebase.Prelude.Text.{Text, text_eq}
use my_kg_codebase.Prelude.Dict.{lookup}
use my_kg_codebase.Lifecycle.Files.{
  FilePath, joined_parts, full_path, previous_path, Payload, Failure, symlink, uninspectable,
  not_siblings, not_distinct, invalid_registry, failed_backend, ok, err, Action, ◌>>=◌, ◌>>◌, pure,
  raise, read_bytes, read_if_exists, atomic_write,
}

abbrev pub guard : Bool → Failure → Action (Unit {0})
guard true failure = pure tt
guard false failure = raise failure

-- previous_path if previous_path else <active>.previous
abbrev pub previous_or : FilePath → Option FilePath → FilePath
previous_or active none = previous_path active
previous_or active (some path) = path

-- What activate_registry returns, less the two flags on the restart of the server, which are
-- constant.
pub record Activation : Type 0 where
  pub active_registry : Text
  pub previous_registry : Option Text
  pub generation_count : ℕ

pub record Rollback : Type 0 where
  pub active_registry : Text
  pub restored_graphs : ℕ

abbrev pub same_parent : FilePath → FilePath → Bool
same_parent a b = text_eq (joined_parts a.parent) (joined_parts b.parent)

module _ (fails : ℕ → Bool) (random : ℕ → Text) where
  -- if old_payload is not None: _atomic_write(previous, old_payload)
  abbrev pub keep_previous : FilePath → Option Payload → Action (Unit {0})
  keep_previous previous none = pure tt
  keep_previous previous (some old) = atomic_write fails random previous old

  -- The writes of activate_registry
  unfoldable pub switch : FilePath → FilePath → Action (Option Payload)
  switch candidate active = do
    payload ← read_bytes fails random candidate
    old ← read_if_exists fails random active
    keep_previous (previous_path active) old
    atomic_write fails random active payload
    pure old

-- `is_symlink` is Path.is_symlink, none for an OSError. `load` is what GraphRegistry.load makes of the
-- bytes of a file, none for an exception; that it reads them is not one of the operations that can
-- fail here. `graphs` is the number of the registry's graphs. `validates` says whether
-- the validator of backends, which the caller gives, passes a registry.
module _ (fails : ℕ → Bool) (random : ℕ → Text) (is_symlink : Text → Option Bool)
    {Registry : Type 0} (load : Payload → Option Registry) (graphs : Registry → ℕ)
    (validates : Registry → Bool) where
  -- _reject_symlink_path, for the components behind a path without symlinks
  unfoldable pub reject_symlinks : Text → List Text → Action (Unit {0})
  reject_symlinks current [] = pure tt
  reject_symlinks current (part ∷ parts) =
      let next = current ++ b'/' ∷ part in
      elim (is_symlink next) [
        | none ↦ raise uninspectable
        | some linked ↦ guard (not linked) symlink >> reject_symlinks next parts
      ]

  -- _absolute_path_without_symlinks and _reject_symlink_path, for a path in normal form. What
  -- passes is its own resolve().
  unfoldable pub reject_symlink_path : FilePath → Action (Unit {0})
  reject_symlink_path path = reject_symlinks [] (path.parent ++ path.name ∷ [])

  -- GraphRegistry.load, then the validator
  unfoldable pub validated : FilePath → Action Registry
  validated path d = elim (lookup (full_path path) d.files) [
    | none ↦ (err invalid_registry, d)
    | some payload ↦ elim (load payload) [
      | none ↦ (err invalid_registry, d)
      | some registry ↦ if validates registry then (ok registry, d) else (err failed_backend, d)
    ]
  ]

  unfoldable pub activate_registry : FilePath → FilePath → Action Activation
  activate_registry candidate active = do
    reject_symlink_path candidate
    reject_symlink_path active
    reject_symlink_path (previous_path active)
    guard (same_parent candidate active) not_siblings
    guard (not (text_eq (full_path candidate) (full_path active))) not_distinct
    registry ← validated candidate
    old ← switch fails random candidate active
    pure (record {
      active_registry = full_path active;
      previous_registry = if is_some old then some (full_path (previous_path active)) else none;
      generation_count = graphs registry;
    })

  -- rollback_registry, with the previous path or none for `<active>.previous`
  unfoldable pub rollback_registry : FilePath → Option FilePath → Action Rollback
  rollback_registry active previous_given = do
    reject_symlink_path active
    let previous = previous_or active previous_given
    reject_symlink_path previous
    guard (same_parent active previous) not_siblings
    registry ← validated previous
    payload ← read_bytes fails random previous
    atomic_write fails random active payload
    pure (record { active_registry = full_path active; restored_graphs = graphs registry })
