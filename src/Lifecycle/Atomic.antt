-- ===== src/Lifecycle/Atomic.antt =====
-- What an atomic write keeps at each moment: _atomic_write of src/codekg/graph_lifecycle.py.
use my_kg_codebase.Prelude.{
  ℕ, ◌≡◌, refl, sym, subst, Bool, false, inl, inr, none, some, [], is_some, All, Bool-cases,
}
use my_kg_codebase.Prelude.Text.{Text, text_eq, text_eq_refl}
use my_kg_codebase.Prelude.Dict.{Dict, lookup, insert, remove, lookup-insert, lookup-remove}
use my_kg_codebase.Lifecycle.Files.{
  FilePath, full_path, Payload, Disk, Result, ok, err, Action, and_then, ◌>>◌, pure, raise,
  finally_of, operate, temporary_path, unlink_if_exists, renamed, write_and_move, atomic_write,
}

-- The files now are as `Now` says, and those in every state that a crash could have left as `Past` says.
abbrev pub Always : (Now Past : Dict Payload → Type 0) → Disk → Type 0
Always Now Past d = Now d.files × All Past d.history

-- What holds at each moment of an action, and of its value if it returns one.
abbrev pub Ensures :
    {A : Type 0}
    → (Now Past : Dict Payload → Type 0) → (A → Disk → Type 0)
    → Result A × Disk
    → Type 0
Ensures Now Past Q (ok a, d) = Q a d × Always Now Past d
Ensures Now Past Q (err e, d) = Always Now Past d

pub Ensures-and_then :
    {A B : Type 0} (Now Past : Dict Payload → Type 0) (Q : A → Disk → Type 0)
    (R : B → Disk → Type 0) (r : Result A × Disk) (f : A → Action B)
    → Ensures Now Past Q r
    → ((a : A) (d : Disk) → Q a d → Always Now Past d → Ensures Now Past R (f a d))
    → Ensures Now Past R (and_then r f)
Ensures-and_then Now Past Q R (ok a, d) f h k = k a d h.0 h.1
Ensures-and_then Now Past Q R (err e, d) f h k = h

pub Ensures-weaken :
    {A : Type 0} (Now Past : Dict Payload → Type 0) (Q R : A → Disk → Type 0) (r : Result A × Disk)
    → ((a : A) (d : Disk) → Q a d → R a d)
    → Ensures Now Past Q r
    → Ensures Now Past R r
Ensures-weaken Now Past Q R (ok a, d) k h = (k a d h.0, h.1)
Ensures-weaken Now Past Q R (err e, d) k h = h

Ensures-finally_of :
    {A : Type 0} (Now Past : Dict Payload → Type 0) (Q : A → Disk → Type 0) (r : Result A × Disk)
    (cleanup : Action (Unit {0}))
    → Ensures Now Past Q r
    → ((a : A) (d : Disk) → Q a d → Always Now Past d → Ensures Now Past (λ _ e. Q a e) (cleanup d))
    → ((d : Disk) → Always Now Past d → Ensures Now Past (λ _ e. Unit {0}) (cleanup d))
    → Ensures Now Past Q (finally_of r cleanup)
Ensures-finally_of Now Past Q (ok a, d) cleanup h k l =
    Ensures-and_then Now Past (λ _ e. Q a e) Q (cleanup d) (λ _. pure a) (k a d h.0 h.1)
      (λ _ e q g. (q, g))
Ensures-finally_of {A} Now Past Q (err failure, d) cleanup h k l =
    Ensures-and_then {B = A} Now Past (λ _ e. Unit {0}) Q (cleanup d) (λ _. raise failure) (l d h)
      (λ _ e q g. g)

module _ (fails : ℕ → Bool) (random : ℕ → Text) (Now Past : Dict Payload → Type 0)
    (weaker : (files : Dict Payload) → Now files → Past files) where
  operate-Ensures :
      (change : Dict Payload → Dict Payload) (d : Disk)
      → Always Now Past d
      → Now (change d.files)
      → Ensures Now Past (λ _ e. e.files ≡ change d.files) (operate fails random change d)
  unfolding operate
  operate-Ensures change d (now, before) next = elim (Bool-cases (fails d.operations)) [
    | inl e ↦ rw e (now, before)
    | inr e ↦ rw e (refl, (next, (weaker (change d.files) next, before)))
  ]

  module _ (path name : Text) (payload : Payload)
      (on_insert : (files : Dict Payload) (content : Payload)
        → Now files
        → Now (insert name content files))
      (on_remove : (files : Dict Payload) → Now files → Now (remove name files))
      (on_move : (files : Dict Payload) → Now files → Now (insert path payload files))
      (other : text_eq path name ≡ false) where
    unlink_if_exists-Ensures :
        (d : Disk)
        → Always Now Past d
        → Ensures Now Past (λ _ e. Unit {0}) (unlink_if_exists fails random name d)
    unfolding unlink_if_exists
    unlink_if_exists-Ensures d h = elim (Bool-cases (is_some (lookup name d.files))) [
      | inl e ↦ rw e (
          Ensures-weaken Now Past (λ _ e. e.files ≡ remove name d.files) (λ _ e. Unit {0})
            (operate fails random (remove name) d) (λ _ e q. tt)
            (operate-Ensures (remove name) d h (on_remove d.files h.0)))
      | inr e ↦ rw e (tt, h)
    ]

    -- The payload stands at the path, and the temporary file is gone.
    abbrev Moved : Disk → Type 0
    Moved d = (lookup path d.files ≡ some payload) × (lookup name d.files ≡ none)

    lookup-renamed :
        (files : Dict Payload)
        → (lookup path (renamed name path payload files) ≡ some payload)
          × (lookup name (renamed name path payload files) ≡ none)
    lookup-renamed files = (
      rw (lookup-insert path path payload (remove name files), text_eq_refl path) refl,
      rw
          (
            lookup-insert path name payload (remove name files),
            other,
            lookup-remove name name files,
            text_eq_refl name,
          )
          refl,
    )

    Moved-same : (d e : Disk) → e.files ≡ d.files → Moved d → Moved e
    Moved-same d e same moved =
        subst (λ files. (lookup path files ≡ some payload) × (lookup name files ≡ none)) (sym same)
          moved

    write_and_move-Ensures :
        (d : Disk)
        → Always Now Past d
        → Ensures Now Past (λ _ e. Moved e) (write_and_move fails random name path payload d)
    unfolding write_and_move
    write_and_move-Ensures d h =
        let stay = λ (files : Dict Payload). files in
        let run = operate fails random in
        Ensures-and_then Now Past (λ _ e. e.files ≡ insert name payload d.files) (λ _ e. Moved e)
          (run (insert name payload) d)
          (λ _. run stay >> (run (renamed name path payload) >> run stay))
          (operate-Ensures (insert name payload) d h (on_insert d.files payload h.0))
          (λ _ e p he.
            Ensures-and_then Now Past (λ _ f. f.files ≡ e.files) (λ _ f. Moved f) (run stay e)
              (λ _. run (renamed name path payload) >> run stay) (operate-Ensures stay e he he.0)
              (λ _ f q hf.
                Ensures-and_then Now Past (λ _ g. g.files ≡ renamed name path payload f.files)
                  (λ _ g. Moved g) (run (renamed name path payload) f) (λ _. run stay)
                  (operate-Ensures (renamed name path payload) f hf
                    (on_move (remove name f.files) (on_remove f.files hf.0)))
                  (λ _ g r hg.
                    Ensures-weaken Now Past (λ _ k. k.files ≡ g.files) (λ _ k. Moved k) (run stay g)
                      (λ _ k same. Moved-same g k same (
                        subst
                          (λ files. (lookup path files ≡ some payload) × (lookup name files ≡ none))
                          (sym r) (lookup-renamed f.files)))
                      (operate-Ensures stay g hg hg.0))))

    -- Nothing is left to unlink behind the move.
    unlink_if_exists-none :
        (d : Disk)
        → Moved d
        → Always Now Past d
        → Ensures Now Past (λ _ e. Moved e) (unlink_if_exists fails random name d)
    unfolding unlink_if_exists
    unlink_if_exists-none d moved h = rw (unlink_if_exists, moved.1) (moved, h)

-- A predicate `Now` on files that neither the temporary file nor the move can break holds at each moment
-- of an atomic write, and what is weaker, `Past`, in the states before; if the write returns, the payload stands at the path.
pub atomic_write-Ensures :
    (fails : ℕ → Bool) (random : ℕ → Text) (Now Past : Dict Payload → Type 0)
    (weaker : (files : Dict Payload) → Now files → Past files) (path : FilePath) (payload : Payload)
    (d : Disk)
    → ((files : Dict Payload) (n : ℕ) (content : Payload)
        → Now files
        → Now (insert (temporary_path fails random path n) content files))
    → ((files : Dict Payload) (n : ℕ)
        → Now files
        → Now (remove (temporary_path fails random path n) files))
    → ((files : Dict Payload) → Now files → Now (insert (full_path path) payload files))
    → text_eq (full_path path) (temporary_path fails random path d.operations) ≡ false
    → Always Now Past d
    → Ensures Now Past
        (λ _ e. lookup (full_path path) e.files ≡ some payload)
        (atomic_write fails random path payload d)
unfolding atomic_write
atomic_write-Ensures fails random Now Past weaker path payload d on_insert on_remove on_move other
      h =
    let name = temporary_path fails random path d.operations in
    let written =
      λ (files : Dict Payload) (content : Payload). on_insert files d.operations content in
    let removed = λ (files : Dict Payload). on_remove files d.operations in
    let target = full_path path in
    Ensures-and_then Now Past (λ _ e. e.files ≡ insert name [] d.files)
      (λ _ e. lookup target e.files ≡ some payload) (operate fails random (insert name []) d)
      (λ _ e.
        finally_of (write_and_move fails random name target payload e)
          (unlink_if_exists fails random name))
      (operate-Ensures fails random Now Past weaker (insert name []) d h (written d.files [] h.0))
      (λ _ e p he.
        Ensures-weaken Now Past
          (λ _ f. (lookup target f.files ≡ some payload) × (lookup name f.files ≡ none))
          (λ _ f. lookup target f.files ≡ some payload)
          (finally_of (write_and_move fails random name target payload e)
            (unlink_if_exists fails random name))
          (λ _ f moved. moved.0)
          (Ensures-finally_of Now Past
            (λ _ f. (lookup target f.files ≡ some payload) × (lookup name f.files ≡ none))
            (write_and_move fails random name target payload e) (unlink_if_exists fails random name)
            (write_and_move-Ensures fails random Now Past weaker target name payload written removed
              on_move other e he)
            (λ _ f moved hf.
              unlink_if_exists-none fails random Now Past weaker target name payload written removed
                on_move other f moved hf)
            (λ f hf.
              unlink_if_exists-Ensures fails random Now Past weaker target name payload written
                removed on_move other f hf)))
