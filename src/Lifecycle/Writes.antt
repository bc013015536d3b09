-- ===== src/Lifecycle/Writes.antt =====
-- The writes of an activation at each moment: src/codekg/graph_lifecycle.py.
use my_kg_codebase.Prelude.{
  ℕ, ◌≡◌, refl, sym, ◌∙◌, Bool, false, ◌⊎◌, inl, inr, Option, none, some, arith, All, Bool-cases,
}
use my_kg_codebase.Prelude.Text.{Text, text_eq, text_eq_sound, text_eq_complete}
use my_kg_codebase.Prelude.Dict.{Dict, lookup, insert, remove, lookup-insert, lookup-remove}
use my_kg_codebase.Lifecycle.Files.{
  FilePath, full_path, previous_path, Payload, Disk, temporary_path, atomic_write,
}
use my_kg_codebase.Lifecycle.Activate.{keep_previous}
use my_kg_codebase.Lifecycle.Atomic.{Always, Ensures, Ensures-weaken, atomic_write-Ensures}
use my_kg_codebase.Lifecycle.Distinct.{
  path-previous_path, path-temporary_path, previous_path-temporary_path, path-temporary_previous,
}

text_eq-sym : (a b : Text) → text_eq a b ≡ false → text_eq b a ≡ false
text_eq-sym a b h = elim (Bool-cases (text_eq b a)) [
  | inl e ↦
      let same = text_eq_complete a b (sym (text_eq_sound b a e)) in
      absurd (ground (arith, h, same))
  | inr e ↦ e
]

pub lookup-insert_other :
    (key name : Text) (content : Payload) (files : Dict Payload)
    → text_eq key name ≡ false
    → lookup key (insert name content files) ≡ lookup key files
lookup-insert_other key name content files h =
    rw (lookup-insert name key content files, text_eq-sym key name h) refl

pub lookup-insert_self :
    (key : Text) (content : Payload) (files : Dict Payload)
    → lookup key (insert key content files) ≡ some content
lookup-insert_self key content files =
    rw (lookup-insert key key content files, text_eq_complete key key refl) refl

pub lookup-remove_other :
    (key name : Text) (files : Dict Payload)
    → text_eq key name ≡ false
    → lookup key (remove name files) ≡ lookup key files
lookup-remove_other key name files h =
    rw (lookup-remove name key files, text_eq-sym key name h) refl

module _ (fails : ℕ → Bool) (random : ℕ → Text) (active : FilePath) (old : Option Payload)
    (payload : Payload) where
  abbrev pub content : FilePath → Dict Payload → Option Payload
  content path files = lookup (full_path path) files

  -- What was active is kept as the previous registry, if there was anything.
  abbrev pub IsKept : Dict Payload → Type 0
  IsKept files = (old ≡ none) ⊎ (content (previous_path active) files ≡ old)

  -- The active registry is the old one, or the new one with the old one kept.
  abbrev pub IsSafe : Dict Payload → Type 0
  IsSafe files =
      (content active files ≡ old) ⊎ ((content active files ≡ some payload) × IsKept files)

  abbrev IsOld : Dict Payload → Type 0
  IsOld files = content active files ≡ old

  -- While the new registry is written
  abbrev pub IsBetween : Dict Payload → Type 0
  IsBetween files =
      ((content active files ≡ old) ⊎ (content active files ≡ some payload)) × IsKept files

  IsBetween-same :
      (files later : Dict Payload)
      → content active later ≡ content active files
      → content (previous_path active) later ≡ content (previous_path active) files
      → IsBetween files
      → IsBetween later
  IsBetween-same files later a p (now, kept) = (
    elim now [ inl e ↦ inl (a ∙ e) | inr e ↦ inr (a ∙ e) ],
    elim kept [ inl e ↦ inl e | inr e ↦ inr (p ∙ e) ],
  )

  pub IsBetween-IsSafe : (files : Dict Payload) → IsBetween files → IsSafe files
  IsBetween-IsSafe files (inl e, kept) = inl e
  IsBetween-IsSafe files (inr e, kept) = inr (e, kept)

  IsBetween-moved :
      (files : Dict Payload) → IsBetween files → IsBetween (insert (full_path active) payload files)
  IsBetween-moved files (now, kept) =
      let p =
        lookup-insert_other (full_path (previous_path active)) (full_path active) payload files (
          text_eq-sym (full_path active) (full_path (previous_path active))
            (path-previous_path fails random active)) in
      (
        inr (lookup-insert_self (full_path active) payload files),
        elim kept [ inl e ↦ inl e | inr e ↦ inr (p ∙ e) ],
      )

  pub write_active-Ensures :
      (d : Disk)
      → Always IsBetween IsSafe d
      → Ensures IsBetween IsSafe
          (λ _ e. content active e.files ≡ some payload)
          (atomic_write fails random active payload d)
  write_active-Ensures d h =
      atomic_write-Ensures fails random IsBetween IsSafe IsBetween-IsSafe active payload d
        (λ files n written.
          let name = temporary_path fails random active n in
          IsBetween-same files (insert name written files)
            (lookup-insert_other (full_path active) name written files
              (path-temporary_path fails random active n))
            (lookup-insert_other (full_path (previous_path active)) name written files
              (previous_path-temporary_path fails random active n)))
        (λ files n.
          let name = temporary_path fails random active n in
          IsBetween-same files (remove name files)
            (lookup-remove_other (full_path active) name files
              (path-temporary_path fails random active n))
            (lookup-remove_other (full_path (previous_path active)) name files
              (previous_path-temporary_path fails random active n)))
        IsBetween-moved (path-temporary_path fails random active d.operations) h

  write_previous-Ensures :
      (kept : Payload) (d : Disk)
      → Always IsOld IsSafe d
      → Ensures IsOld IsSafe
          (λ _ e. content (previous_path active) e.files ≡ some kept)
          (atomic_write fails random (previous_path active) kept d)
  write_previous-Ensures kept d h =
      let previous = previous_path active in
      let key = full_path active in
      atomic_write-Ensures fails random IsOld IsSafe (λ files e. inl e) previous kept d
        (λ files n written e.
          lookup-insert_other key (temporary_path fails random previous n) written files
            (path-temporary_previous fails random active n)
          ∙ e)
        (λ files n e.
          lookup-remove_other key (temporary_path fails random previous n) files
            (path-temporary_previous fails random active n)
          ∙ e)
        (λ files e.
          lookup-insert_other key (full_path previous) kept files
            (path-previous_path fails random active)
          ∙ e)
        (path-temporary_path fails random previous d.operations) h

-- The old registry is kept before the new one is written.
pub keep_previous-Ensures :
    (fails : ℕ → Bool) (random : ℕ → Text) (active : FilePath) (old : Option Payload)
    (payload : Payload) (d : Disk)
    → lookup (full_path active) d.files ≡ old
    → All (IsSafe fails random active old payload) d.history
    → Ensures
        (λ files. lookup (full_path active) files ≡ old)
        (IsSafe fails random active old payload)
        (λ _ e. IsKept fails random active old payload e.files)
        (keep_previous fails random (previous_path active) old d)
keep_previous-Ensures fails random active none payload d e past = (inl refl, (e, past))
keep_previous-Ensures fails random active (some kept) payload d e past =
    Ensures-weaken (λ files. lookup (full_path active) files ≡ some kept)
      (IsSafe fails random active (some kept) payload)
      (λ _ f. lookup (full_path (previous_path active)) f.files ≡ some kept)
      (λ _ f. IsKept fails random active (some kept) payload f.files)
      (atomic_write fails random (previous_path active) kept d) (λ _ f there. inr there)
      (write_previous-Ensures fails random active (some kept) payload kept d (e, past))
