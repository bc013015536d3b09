-- ===== src/Lifecycle/Files.antt =====
-- Files, paths and _atomic_write of src/codekg/graph_lifecycle.py.
use my_kg_codebase.Prelude.{
  ℕ, ◌+◌, Bool, Option, none, some, List, [], ◌∷◌, ◌++◌, if◌then◌else◌, is_some,
}
use my_kg_codebase.Prelude.Text.{Text, codes}
use my_kg_codebase.Prelude.Dict.{Dict, lookup, insert, remove}

-- An absolute path in lexical normal form: the components of the directory, and the name.
pub record FilePath : Type 0 where
  pub parent : List Text
  pub name : Text

abbrev pub joined_parts : List Text → Text
joined_parts [] = []
joined_parts (part ∷ parts) = b'/' ∷ (part ++ joined_parts parts)

abbrev pub full_path : FilePath → Text
full_path path = joined_parts path.parent ++ b'/' ∷ path.name

-- path.with_name(path.name + ".previous")
abbrev pub previous_path : FilePath → FilePath
previous_path path = record path { name = path.name ++ codes ".previous" }

-- The bytes of a file
abbrev pub Payload : Type 0
Payload = List ℕ

-- The files by their full path; how many operations on files there were; and all the states of the
-- files that a crash could have left, the last one first.
pub record Disk : Type 0 where
  pub files : Dict Payload
  pub operations : ℕ
  pub history : List (Dict Payload)

pub data Failure : Type 0 where
  symlink uninspectable not_siblings not_distinct invalid_registry failed_backend os_error : Failure

pub data Result (A : Type 0) : Type 0 where
  ok : A → Result A
  err : Failure → Result A

abbrev pub Action : Type 0 → Type 0
Action A = Disk → Result A × Disk

abbrev pub and_then : {A B : Type 0} → Result A × Disk → (A → Action B) → Result B × Disk
and_then (ok a, d) f = f a d
and_then (err e, d) f = (err e, d)

infixl 5 ◌>>=◌ ◌>>◌
abbrev pub ◌>>=◌ : {A B : Type 0} → Action A → (A → Action B) → Action B
◌>>=◌ m f d = and_then (m d) f

abbrev pub ◌>>◌ : {B : Type 0} → Action (Unit {0}) → Action B → Action B
m >> k = m >>= λ _. k

abbrev pub pure : {A : Type 0} → A → Action A
pure a d = (ok a, d)

abbrev pub raise : {A : Type 0} → Failure → Action A
raise e d = (err e, d)

-- try: ... finally: ...
abbrev pub finally_of : {A : Type 0} → Result A × Disk → Action (Unit {0}) → Result A × Disk
finally_of (ok a, d) cleanup = and_then (cleanup d) (λ _. pure a)
finally_of (err e, d) cleanup = and_then (cleanup d) (λ _. raise e)

-- The bytes that are there, if there are any
abbrev pub content_of : Option Payload → Action Payload
content_of none = raise os_error
content_of (some payload) = pure payload

-- os.replace(name, path)
abbrev pub renamed : Text → Text → Payload → Dict Payload → Dict Payload
renamed name path payload files = insert path payload (remove name files)

-- The operating system: which operations on files fail, and what mkstemp puts in a name.
module _ (fails : ℕ → Bool) (random : ℕ → Text) where
  -- One operation that changes the files, or fails and changes nothing.
  unfoldable pub operate : (Dict Payload → Dict Payload) → Action (Unit {0})
  operate change d =
      if fails d.operations then (err os_error, record d { operations = d.operations + 1 }) else (
        ok tt,
        record {
          files = change d.files;
          operations = d.operations + 1;
          history = change d.files ∷ d.history;
        },
      )

  -- One operation that only reads, or fails.
  unfoldable pub inspect : Action (Unit {0})
  inspect d =
      let e = record d { operations = d.operations + 1 } in
      if fails d.operations then (err os_error, e) else (ok tt, e)

  -- path.read_bytes(), of a file that is there
  unfoldable pub read_bytes : FilePath → Action Payload
  unfolding inspect
  read_bytes path d = and_then (inspect d) (λ _ e. content_of (lookup (full_path path) e.files) e)

  -- path.read_bytes() if path.exists() else None
  abbrev pub read_found : Option Payload → Action (Option Payload)
  read_found none d = (ok none, d)
  read_found (some payload) d = and_then (inspect d) (λ _. pure (some payload))

  unfoldable pub read_if_exists : FilePath → Action (Option Payload)
  unfolding inspect
  read_if_exists path d =
      and_then (inspect d) (λ _ e. read_found (lookup (full_path path) e.files) e)

  -- tempfile.mkstemp(prefix=f".{path.name}.", suffix=".tmp", dir=path.parent)
  abbrev pub temporary_path : FilePath → ℕ → Text
  temporary_path path n =
      full_path (record path { name = b'.' ∷ (path.name ++ b'.' ∷ (random n ++ codes ".tmp")) })

  -- if os.path.exists(name): os.unlink(name)
  unfoldable pub unlink_if_exists : Text → Action (Unit {0})
  unlink_if_exists name d =
      if is_some (lookup name d.files) then operate (remove name) d else (ok tt, d)

  -- The body of the try: the file is written and synced, moved, and the directory synced.
  unfoldable pub write_and_move : Text → Text → Payload → Action (Unit {0})
  write_and_move name path payload = do
    operate (insert name payload)
    operate (λ files. files)
    operate (renamed name path payload)
    operate (λ files. files)

  -- _atomic_write, in a directory that exists
  unfoldable pub atomic_write : FilePath → Payload → Action (Unit {0})
  atomic_write path payload d =
      let name = temporary_path path d.operations in
      and_then (operate (insert name []) d)
        (λ _ e. finally_of (write_and_move name (full_path path) payload e) (unlink_if_exists name))
