-- ===== src/Lifecycle/Tests.antt =====
-- An activation in a small directory: src/codekg/graph_lifecycle.py.
use my_kg_codebase.Prelude.{
  ℕ, ◌≡◌, refl, Bool, true, false, Option, none, some, [], ◌∷◌, is_empty, if◌then◌else◌, ◌==◌,
}
use my_kg_codebase.Prelude.Text.{Text, codes, text_eq}
use my_kg_codebase.Prelude.Dict.{lookup, insert, remove}
use my_kg_codebase.Lifecycle.Files.{
  FilePath, full_path, Payload, Disk, Result, ok, inspect, read_bytes, read_if_exists, operate,
  unlink_if_exists, write_and_move, atomic_write,
}
use my_kg_codebase.Lifecycle.Activate.{
  Activation, Rollback, reject_symlinks, reject_symlink_path, validated, switch, activate_registry,
  rollback_registry,
}
use my_kg_codebase.Lifecycle.Activated.{IsActivation, activate_registry-IsActivation}
use my_kg_codebase.Lifecycle.RolledBack.{
  IsRollback, rollback_registry-IsRollback, rollback-activate,
}

abbrev in_etc : Text → FilePath
in_etc name = record { parent = codes "etc" ∷ []; name = name }

abbrev new_registry : FilePath
new_registry = in_etc (codes "new")

abbrev live_registry : FilePath
live_registry = in_etc (codes "live")

abbrev etc : Disk
etc = record {
  files = (codes "/etc/new", 1 ∷ 2 ∷ []) ∷ (codes "/etc/live", 3 ∷ []) ∷ [];
  operations = 0;
  history = [];
}

abbrev never : ℕ → Bool
never n = false

abbrev at_the_ninth : ℕ → Bool
at_the_ninth n = n == 8

abbrev no_random : ℕ → Text
no_random n = codes "x"

abbrev no_links : Text → Option Bool
no_links path = some false

-- A registry is its bytes; an empty file is none.
abbrev load_bytes : Payload → Option Payload
load_bytes payload = if is_empty payload then none else some payload

abbrev one_graph : Payload → ℕ
one_graph registry = 1

abbrev passes : Payload → Bool
passes registry = true

abbrev activated : (ℕ → Bool) → Result Activation × Disk
activated fails =
    activate_registry fails no_random no_links load_bytes one_graph passes new_registry
      live_registry etc

new_is_live : lookup (codes "/etc/live") (activated never).1.files ≡ some (1 ∷ 2 ∷ [])
unfolding activate_registry reject_symlink_path reject_symlinks validated switch read_bytes
    read_if_exists inspect atomic_write operate unlink_if_exists write_and_move lookup insert remove
    text_eq
new_is_live = refl

-- The first operation of the second write fails: the old registry is still live, and kept.
old_stays_live : lookup (codes "/etc/live") (activated at_the_ninth).1.files ≡ some (3 ∷ [])
unfolding activate_registry reject_symlink_path reject_symlinks validated switch read_bytes
    read_if_exists inspect atomic_write operate unlink_if_exists write_and_move lookup insert remove
    text_eq
old_stays_live = refl

activate_registry-IsActivation_example :
    IsActivation never no_random no_links load_bytes one_graph passes new_registry live_registry etc
      (activate_registry never no_random no_links load_bytes one_graph passes new_registry
        live_registry etc)
activate_registry-IsActivation_example =
    activate_registry-IsActivation never no_random no_links load_bytes one_graph passes new_registry
      live_registry etc refl

abbrev rolled_back : Result Rollback × Disk
rolled_back =
    rollback_registry never no_random no_links load_bytes one_graph passes live_registry none
      (record (activated never).1 { history = [] })

abbrev after_activation : Activation
after_activation = record {
  active_registry = codes "/etc/live";
  previous_registry = some (codes "/etc/live.previous");
  generation_count = 1;
}

abbrev after_rollback : Rollback
after_rollback = record { active_registry = codes "/etc/live"; restored_graphs = 1 }

activation_returns : activated never ≡ (ok after_activation, (activated never).1)
unfolding activate_registry reject_symlink_path reject_symlinks validated switch read_bytes
    read_if_exists inspect atomic_write operate unlink_if_exists write_and_move lookup insert remove
    text_eq
activation_returns = refl

rollback_returns : rolled_back ≡ (ok after_rollback, rolled_back.1)
unfolding activate_registry rollback_registry reject_symlink_path reject_symlinks validated switch
    read_bytes read_if_exists inspect atomic_write operate unlink_if_exists write_and_move lookup
    insert remove text_eq
rollback_returns = refl

live_before : lookup (codes "/etc/live") etc.files ≡ some (3 ∷ [])
unfolding lookup text_eq
live_before = refl

rollback_registry-IsRollback_example :
    IsRollback never no_random no_links load_bytes one_graph passes live_registry new_registry etc (
      rollback_registry never no_random no_links load_bytes one_graph passes live_registry
        (some new_registry)
        etc)
rollback_registry-IsRollback_example =
    rollback_registry-IsRollback never no_random no_links load_bytes one_graph passes live_registry
      (some new_registry) etc refl

rollback-activate_example : lookup (full_path live_registry) rolled_back.1.files ≡ some (3 ∷ [])
rollback-activate_example =
    rollback-activate never no_random no_links load_bytes one_graph passes new_registry
      live_registry etc (activated never).1 rolled_back.1 (3 ∷ []) after_activation after_rollback
      refl live_before activation_returns rollback_returns
