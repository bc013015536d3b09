-- ===== src/Lifecycle/Explained.antt =====
-- Why an action on files raises: an operation of its own failed. The actions are those of
-- src/codekg/graph_lifecycle.py.
use my_kg_codebase.Prelude.{
  ℕ, ◌≤◌, ◌<◌, ◌≡◌, refl, Bool, true, inl, inr, Option, none, some, [], arith, Bool-cases, is_some,
}
use my_kg_codebase.Prelude.Text.{Text}
use my_kg_codebase.Prelude.Dict.{Dict, lookup, insert, remove}
use my_kg_codebase.Lifecycle.Files.{
  FilePath, full_path, Payload, Disk, Failure, os_error, Result, ok, err, Action, and_then,
  finally_of, pure, raise, inspect, read_bytes, read_found, read_if_exists, operate, temporary_path,
  unlink_if_exists, renamed, write_and_move, atomic_write,
}
use my_kg_codebase.Lifecycle.Activate.{keep_previous}

-- The error is the operating system's, and one of the operations from number `start` on failed.
abbrev pub IsExplained : (ℕ → Bool) → ℕ → Failure → Disk → Type 0
IsExplained fails start failure e =
    (failure ≡ os_error) × (n : ℕ) × (start ≤ n) × (n < e.operations) × (fails n ≡ true)

abbrev pub Explained : {A : Type 0} → (ℕ → Bool) → ℕ → Result A × Disk → Type 0
Explained fails start (ok a, e) = start ≤ e.operations
Explained fails start (err failure, e) = IsExplained fails start failure e

module _ (fails : ℕ → Bool) (random : ℕ → Text) where
  pub Explained-and_then :
      {A B : Type 0} (start : ℕ) (r : Result A × Disk) (f : A → Action B)
      → Explained fails start r
      → ((a : A) (d : Disk) → start ≤ d.operations → Explained fails start (f a d))
      → Explained fails start (and_then r f)
  Explained-and_then start (ok a, d) f h k = k a d h
  Explained-and_then start (err failure, d) f h k = h

  -- What cleans up does not take operations back.
  later_failure :
      (A : Type 0) (start : ℕ) (failure : Failure) (d : Disk) (r : Result (Unit {0}) × Disk)
      → IsExplained fails start failure d
      → Explained fails d.operations r
      → Explained {A = A} fails start (and_then r (λ _. raise failure))
  later_failure A start failure d (ok u, e) (os, n, low, high, fails_there) h =
      (os, n, low, omega (arith, high, h), fails_there)
  later_failure A start failure d (err g, e) (os, m, low, high, _)
        (other, n, after, before, there) =
      (other, n, omega (arith, low, high, after), before, there)

  Explained-finally_of :
      {A : Type 0} (start : ℕ) (r : Result A × Disk) (cleanup : Action (Unit {0}))
      → Explained fails start r
      → ((from : ℕ) (d : Disk) → from ≤ d.operations → Explained fails from (cleanup d))
      → Explained fails start (finally_of r cleanup)
  Explained-finally_of start (ok a, d) cleanup h k =
      Explained-and_then start (cleanup d) (λ _. pure a) (k start d h) (λ _ e q. q)
  Explained-finally_of {A} start (err failure, d) cleanup h k =
      later_failure A start failure d (cleanup d) h (k d.operations d (omega arith))

  operate-Explained :
      (change : Dict Payload → Dict Payload) (start : ℕ) (d : Disk)
      → start ≤ d.operations
      → Explained fails start (operate fails random change d)
  unfolding operate
  operate-Explained change start d h = elim (Bool-cases (fails d.operations)) [
    | inl e ↦ rw e (refl, d.operations, h, omega arith, e)
    | inr e ↦ rw e (omega (arith, h))
  ]

  inspect-Explained :
      (start : ℕ) (d : Disk) → start ≤ d.operations → Explained fails start (inspect fails random d)
  unfolding inspect
  inspect-Explained start d h = elim (Bool-cases (fails d.operations)) [
    | inl e ↦ rw e (refl, d.operations, h, omega arith, e)
    | inr e ↦ rw e (omega (arith, h))
  ]

  read_found-Explained :
      (found : Option Payload) (start : ℕ) (d : Disk)
      → start ≤ d.operations
      → Explained fails start (read_found fails random found d)
  read_found-Explained none start d h = h
  read_found-Explained (some payload) start d h =
      Explained-and_then start (inspect fails random d) (λ _. pure (some payload))
        (inspect-Explained start d h) (λ _ e q. q)

  pub read_bytes-Explained :
      (path : FilePath) (payload : Payload) (start : ℕ) (d : Disk)
      → lookup (full_path path) d.files ≡ some payload
      → start ≤ d.operations
      → Explained fails start (read_bytes fails random path d)
  unfolding read_bytes inspect
  read_bytes-Explained path payload start d found h = elim (Bool-cases (fails d.operations)) [
    | inl e ↦ rw e (refl, d.operations, h, omega arith, e)
    | inr e ↦ rw (e, found) (omega (arith, h))
  ]

  pub read_if_exists-Explained :
      (path : FilePath) (start : ℕ) (d : Disk)
      → start ≤ d.operations
      → Explained fails start (read_if_exists fails random path d)
  unfolding read_if_exists
  read_if_exists-Explained path start d h =
      Explained-and_then start (inspect fails random d) _ (inspect-Explained start d h)
        (λ _ e q. read_found-Explained (lookup (full_path path) e.files) start e q)

  unlink_if_exists-Explained :
      (name : Text) (start : ℕ) (d : Disk)
      → start ≤ d.operations
      → Explained fails start (unlink_if_exists fails random name d)
  unfolding unlink_if_exists
  unlink_if_exists-Explained name start d h = elim (Bool-cases (is_some (lookup name d.files))) [
    | inl e ↦ rw e (operate-Explained (remove name) start d h)
    | inr e ↦ rw e h
  ]

  write_and_move-Explained :
      (name path : Text) (payload : Payload) (start : ℕ) (d : Disk)
      → start ≤ d.operations
      → Explained fails start (write_and_move fails random name path payload d)
  unfolding write_and_move
  write_and_move-Explained name path payload start d h =
      let stay = λ (files : Dict Payload). files in
      let run = operate fails random in
      Explained-and_then start (run (insert name payload) d) _
        (operate-Explained (insert name payload) start d h)
        (λ _ e he.
          Explained-and_then start (run stay e) _ (operate-Explained stay start e he) (λ _ f hf.
            Explained-and_then start (run (renamed name path payload) f) _
              (operate-Explained (renamed name path payload) start f hf)
              (λ _ g hg. operate-Explained stay start g hg)))

  pub atomic_write-Explained :
      (path : FilePath) (payload : Payload) (start : ℕ) (d : Disk)
      → start ≤ d.operations
      → Explained fails start (atomic_write fails random path payload d)
  unfolding atomic_write
  atomic_write-Explained path payload start d h =
      let name = temporary_path fails random path d.operations in
      Explained-and_then start (operate fails random (insert name []) d) _
        (operate-Explained (insert name []) start d h)
        (λ _ e he.
          Explained-finally_of start (write_and_move fails random name (full_path path) payload e)
            (unlink_if_exists fails random name)
            (write_and_move-Explained name (full_path path) payload start e he)
            (unlink_if_exists-Explained name))

  pub keep_previous-Explained :
      (previous : FilePath) (old : Option Payload) (start : ℕ) (d : Disk)
      → start ≤ d.operations
      → Explained fails start (keep_previous fails random previous old d)
  keep_previous-Explained previous none start d h = h
  keep_previous-Explained previous (some old) start d h =
      atomic_write-Explained previous old start d h
