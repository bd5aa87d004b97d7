-- ===== src/Storage.antt =====
-- The trait `Storage` of src/storage/mod.rs: a value kept in a storage, read and changed through
-- guards. What std::fs, the crate atomicwrites and serde_json do are parameters.
pub mod Memory
pub mod Disk
pub mod Locations
pub mod Located
pub mod Writes
pub mod Refined
pub mod Reopened
use sawtooth_pbft.Common.{
  if◌then◌else◌, rest, String, ◌≡◌, Bool, true, false, Option, some, List, [], ◌∷◌,
}

-- serde_json's `to_string` and `from_str` for `T`; `none` stands for an `Err`.
pub record Serde (T : Type 0) : Type 0 where
  pub to_string : T → Option String
  pub from_str : String → Option T

-- What `File::open` and `read_to_string` give: `missing` is any error of the first.
pub data Opened : Type 0 where
  missing : Opened
  unreadable : Opened
  contents : String → Opened

-- The files, in a state of type `D`. `write_file` is `AtomicFile::write` of a text that is there:
-- whether it succeeds, and the state afterwards.
pub record Files (D : Type 0) : Type 0 where
  pub open_file : String → D → Opened
  pub write_file : String → String → D → Bool × D

-- A file that was written reads as what was written.
pub record ReadsBack {D : Type 0} (files : Files D) : Type 0 where
  pub written :
      (path text : String) (d : D)
      → (files.write_file path text d).0 ≡ true
      → files.open_file path (files.write_file path text d).1 ≡ Opened.contents text

-- A value that was written as a text is read back from it.
abbrev pub ParsesBack : {T : Type 0} → Serde T → Type 0
ParsesBack {T} serde =
    (t : T) (text : String) → serde.to_string t ≡ some text → serde.from_str text ≡ some t

-- The texts of the errors, by what is fixed in them.
pub data StorageError : Type 0 where
  couldnt_read : StorageError
  write_failed : StorageError
  invalid_location : String → StorageError
  unknown_location : String → StorageError

-- The `Result` of a function that loads a storage, or its panic.
pub data Loading (A : Type 0) : Type 0 where
  loaded : A → Loading A
  refused : StorageError → Loading A
  panicked : Loading A

-- The trait `Storage` of a type `St`. A write guard is the storage that it borrows: `deref_mut` changes
-- the value, and `drop` ends the guard. `false` stands for a panic.
pub record Storage (T D St : Type 0) : Type 0 where
  pub read : St → T
  pub deref_mut : (T → T) → St → St
  pub drop : St → D → Bool × D

-- What a client of a storage relies on: it reads what it wrote.
abbrev pub IsStorage : {T D St : Type 0} → Storage T D St → Type 0
IsStorage {T} {D} {St} s = (f : T → T) (st : St) → s.read (s.deref_mut f st) ≡ f (s.read st)

module _ {T D St : Type 0} (s : Storage T D St) where
  -- One use of `write()`: the value is changed, and the guard dropped.
  unfoldable pub write : (T → T) → St × D → Bool × (St × D)
  write f (st, d) =
      let changed = s.deref_mut f st in let (there, d') = s.drop changed d in (there, (changed, d'))

  -- One use after the other, up to a panic.
  unfoldable pub write_all : List (T → T) → St × D → Bool × (St × D)
  unfolding write
  write_all [] w = (true, w)
  write_all (f ∷ fs) w =
      let (there, w') = write f w in
      let rest = write_all fs w' in if there then rest else (false, w')
