-- ===== src/Lifecycle/Safe.antt =====
-- Activation is safe at each moment: activate_registry of src/codekg/graph_lifecycle.py.
use my_kg_codebase.Prelude.{
  ℕ, ◌+◌, ◌≡◌, refl, sym, subst, Bool, true, false, inl, inr, Option, none, some, All, arith,
  Bool-cases,
}
use my_kg_codebase.Prelude.Text.{Text}
use my_kg_codebase.Prelude.Dict.{Dict, lookup}
use my_kg_codebase.Lifecycle.Files.{
  FilePath, full_path, previous_path, Payload, Disk, Failure, Result, ok, err, Action, and_then,
  ◌>>◌, pure, inspect, read_bytes, read_found, read_if_exists, atomic_write,
}
use my_kg_codebase.Lifecycle.Activate.{guard, keep_previous, switch}
use my_kg_codebase.Lifecycle.Atomic.{Always, Ensures}
use my_kg_codebase.Lifecycle.Explained.{
  Explained, Explained-and_then, read_bytes-Explained, read_if_exists-Explained,
  atomic_write-Explained, keep_previous-Explained,
}
use my_kg_codebase.Lifecycle.Writes.{
  IsKept, IsSafe, IsBetween, IsBetween-IsSafe, write_active-Ensures, keep_previous-Ensures,
}

-- The test passes or fails, and changes nothing.
abbrev pub Checks : {A : Type 0} → (A → Type 0) → Disk → Result A × Disk → Type 0
Checks P d (ok a, e) = P a × (e ≡ d)
Checks P d (err f, e) = e ≡ d

pub guard-Checks : (b : Bool) (f : Failure) (d : Disk) → Checks (λ _. b ≡ true) d (guard b f d)
guard-Checks true f d = (refl, refl)
guard-Checks false f d = refl

-- A check that fails leaves everything as it was.
pub Checks-then :
    {A B : Type 0} (Goal : Result B × Disk → Type 0) (P : A → Type 0) (d : Disk)
    (r : Result A × Disk) (f : A → Action B)
    → ((failure : Failure) → Goal (err failure, d))
    → Checks P d r
    → ((a : A) → P a → Goal (f a d))
    → Goal (and_then r f)
Checks-then Goal P d (ok a, e) f unchanged (p, same) k =
    subst (λ x. Goal (f a x)) (sym same) (k a p)
Checks-then Goal P d (err failure, e) f unchanged same k =
    subst (λ x. Goal (err failure, x)) (sym same) (unchanged failure)

-- An action whose states become less certain
Ensures-widen :
    {A B : Type 0} (Now Later Past : Dict Payload → Type 0) (Q : A → Disk → Type 0)
    (R : B → Disk → Type 0) (r : Result A × Disk) (f : A → Action B)
    → ((files : Dict Payload) → Now files → Later files)
    → Ensures Now Past Q r
    → ((a : A) (d : Disk) → Q a d → Always Now Past d → Ensures Later Past R (f a d))
    → Ensures Later Past R (and_then r f)
Ensures-widen Now Later Past Q R (ok a, d) f w h k = k a d h.0 h.1
Ensures-widen Now Later Past Q R (err g, d) f w h k = (w d.files h.0, h.1)

-- Reading changes no file, and gives what is there.
module _ (fails : ℕ → Bool) (random : ℕ → Text) (Now Past : Dict Payload → Type 0) (path : FilePath)
    (d : Disk) where
  pub read_bytes-Ensures :
      (payload : Payload)
      → lookup (full_path path) d.files ≡ some payload
      → Always Now Past d
      → Ensures Now Past (λ read _. read ≡ payload) (read_bytes fails random path d)
  unfolding read_bytes inspect
  read_bytes-Ensures payload found h = elim (Bool-cases (fails d.operations)) [
    | inl e ↦ rw e h
    | inr e ↦ rw (e, found) (refl, h)
  ]

  read_found-Ensures :
      (found : Option Payload)
      → Always Now Past d
      → Ensures Now Past (λ old _. old ≡ found) (read_found fails random found d)
  unfolding inspect
  read_found-Ensures none h = (refl, h)
  read_found-Ensures (some payload) h = elim (Bool-cases (fails d.operations)) [
    | inl e ↦ rw e h
    | inr e ↦ rw e (refl, h)
  ]

pub read_if_exists-Ensures :
    (fails : ℕ → Bool) (random : ℕ → Text) (Now Past : Dict Payload → Type 0) (path : FilePath)
    (d : Disk) (found : Option Payload)
    → lookup (full_path path) d.files ≡ found
    → Always Now Past d
    → Ensures Now Past (λ old _. old ≡ found) (read_if_exists fails random path d)
unfolding read_if_exists inspect
read_if_exists-Ensures fails random Now Past path d found e h =
    elim (Bool-cases (fails d.operations)) [
      | inl f ↦ rw f h
      | inr f ↦
          rw (f, e)
            (read_found-Ensures fails random Now Past path
              (record d { operations = d.operations + 1 }) found h)
    ]

module _ (fails : ℕ → Bool) (random : ℕ → Text) (candidate active : FilePath) (payload : Payload)
    (d : Disk) where
  abbrev pub old_content : Option Payload
  old_content = lookup (full_path active) d.files

  -- The new registry is active, and the old one kept.
  abbrev pub IsSwitched : Dict Payload → Type 0
  IsSwitched files =
      (lookup (full_path active) files ≡ some payload)
      × IsKept fails random active old_content payload files

  abbrev pub WasSafe : Dict Payload → Type 0
  WasSafe = IsSafe fails random active old_content payload

  write_and_keep-Ensures :
      (e : Disk)
      → Always (IsBetween fails random active old_content payload) WasSafe e
      → Ensures WasSafe WasSafe
          (λ _ f. IsSwitched f.files)
          ((atomic_write fails random active payload >> pure old_content) e)
  write_and_keep-Ensures e h =
      Ensures-widen (IsBetween fails random active old_content payload) WasSafe WasSafe
        (λ _ f. lookup (full_path active) f.files ≡ some payload) (λ _ f. IsSwitched f.files)
        (atomic_write fails random active payload e) (λ _. pure old_content)
        (IsBetween-IsSafe fails random active old_content payload)
        (write_active-Ensures fails random active old_content payload e h)
        (λ _ f there g. ((there, g.0.1), (inr (there, g.0.1), g.1)))

  pub switch-Ensures :
      lookup (full_path candidate) d.files ≡ some payload
      → All WasSafe d.history
      → Ensures WasSafe WasSafe (λ _ e. IsSwitched e.files) (switch fails random candidate active d)
  unfolding switch
  switch-Ensures found past =
      let IsOld = λ (files : Dict Payload). lookup (full_path active) files ≡ old_content in
      let previous = previous_path active in
      let Done = λ (r : Result (Option Payload) × Disk).
        Ensures WasSafe WasSafe (λ _ e. IsSwitched e.files) r in
      let write = atomic_write fails random active in
      Ensures-widen IsOld WasSafe WasSafe (λ read _. read ≡ payload) (λ _ e. IsSwitched e.files)
        (read_bytes fails random candidate d) _ (λ files e. inl e)
        (read_bytes-Ensures fails random IsOld WasSafe candidate d payload found (refl, past))
        (λ read e same he.
          subst
            (λ p. Done (
              and_then (read_if_exists fails random active e)
                (λ old. keep_previous fails random previous old >> (write p >> pure old))))
            (sym same)
            (Ensures-widen IsOld WasSafe WasSafe (λ old _. old ≡ old_content)
              (λ _ f. IsSwitched f.files) (read_if_exists fails random active e) _
              (λ files e. inl e)
              (read_if_exists-Ensures fails random IsOld WasSafe active e old_content he.0 he)
              (λ old f same' hf.
                subst
                  (λ o. Done (
                    and_then (keep_previous fails random previous o f)
                      (λ _. write payload >> pure o)))
                  (sym same')
                  (Ensures-widen IsOld WasSafe WasSafe
                    (λ _ g. IsKept fails random active old_content payload g.files)
                    (λ _ g. IsSwitched g.files) (keep_previous fails random previous old_content f)
                    (λ _. write payload >> pure old_content) (λ files e. inl e)
                    (keep_previous-Ensures fails random active old_content payload f hf.0 hf.1)
                    (λ _ g kept h. write_and_keep-Ensures g ((inl h.0, kept), h.1))))))

  pub switch-Explained :
      lookup (full_path candidate) d.files ≡ some payload
      → Explained fails d.operations (switch fails random candidate active d)
  unfolding switch
  switch-Explained found =
      let start = d.operations in
      Explained-and_then fails random start (read_bytes fails random candidate d) _
        (read_bytes-Explained fails random candidate payload start d found (omega arith))
        (λ read e he.
          Explained-and_then fails random start (read_if_exists fails random active e) _
            (read_if_exists-Explained fails random active start e he)
            (λ old f hf.
              Explained-and_then fails random start
                (keep_previous fails random (previous_path active) old f) _
                (keep_previous-Explained fails random (previous_path active) old start f hf)
                (λ _ g hg.
                  Explained-and_then fails random start (atomic_write fails random active read g) _
                    (atomic_write-Explained fails random active read start g hg) (λ _ k hk. hk))))
