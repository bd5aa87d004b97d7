-- ===== src/Storage/Disk.antt =====
-- `DiskStorage` of src/storage/disk.rs. A write guard writes the file when it is dropped.
use sawtooth_pbft.Common.{if◌then◌else◌, String, refl, Bool, false, Option, none, some}
use sawtooth_pbft.Storage.{Serde, Opened, Files, StorageError, Loading, Storage, IsStorage}

pub record DiskStorage (T : Type 0) : Type 0 where
  pub data_of : T
  pub file : String

-- The guards, which borrow the storage.
pub record DiskStorageReadGuard (T : Type 0) : Type 0 where
  pub storage : DiskStorage T

pub record DiskStorageWriteGuard (T : Type 0) : Type 0 where
  pub storage : DiskStorage T

module _ {T : Type 0} where
  abbrev pub disk_read_deref : DiskStorageReadGuard T → T
  disk_read_deref g = g.storage.data_of

  abbrev pub disk_write_deref : DiskStorageWriteGuard T → T
  disk_write_deref g = g.storage.data_of

  -- A change of the value that `deref_mut` refers to.
  abbrev pub disk_write_deref_mut : (T → T) → DiskStorageWriteGuard T → DiskStorageWriteGuard T
  disk_write_deref_mut f g = record {
    storage = record { data_of = f (disk_write_deref g); file = g.storage.file };
  }

module _ {T D : Type 0} (files : Files D) (serde : Serde T) where
  -- `file.write` of the value's text: nothing is written where there is no text.
  unfoldable pub write_value : String → T → D → Bool × D
  write_value path t d = elim (serde.to_string t) [
    | none ↦ (false, d)
    | some text ↦ files.write_file path text d
  ]

  -- The branch of `from_path` in which there is no file; the default may panic.
  unfoldable pub create_file : String → Option T → D → Loading (DiskStorage T) × D
  unfolding write_value
  create_file path none d = (Loading.panicked, d)
  create_file path (some t) d =
      let (there, d') = write_value path t d in
      (
        if there
            then Loading.loaded (record { data_of = t; file = path })
            else Loading.refused StorageError.write_failed,
        d',
      )

  -- The branch in which there is one.
  unfoldable pub load_text : String → String → Loading (DiskStorage T)
  load_text path text = elim (serde.from_str text) [
    | none ↦ Loading.refused StorageError.couldnt_read
    | some t ↦ Loading.loaded (record { data_of = t; file = path })
  ]

  unfoldable pub from_path : String → Option T → D → Loading (DiskStorage T) × D
  unfolding create_file load_text
  from_path path default d = elim (files.open_file path d) [
    | Opened.missing ↦ create_file path default d
    | Opened.unreadable ↦ (Loading.refused StorageError.couldnt_read, d)
    | Opened.contents text ↦ (load_text path text, d)
  ]

  -- `Drop::drop` of a write guard. `expect` panics where the value has no text or the file is not
  -- written.
  unfoldable pub disk_drop : DiskStorageWriteGuard T → D → Bool × D
  unfolding write_value
  disk_drop g d = write_value g.storage.file g.storage.data_of d

  -- `impl Storage for DiskStorage`.
  abbrev pub disk_storage : Storage T D (DiskStorage T)
  disk_storage = record {
    read = λ st. disk_read_deref (record { storage = st });
    deref_mut = λ f st. (disk_write_deref_mut f (record { storage = st })).storage;
    drop = λ st d. disk_drop (record { storage = st }) d;
  }

  pub disk_storage-IsStorage : IsStorage disk_storage
  disk_storage-IsStorage f st = refl
