-- ===== src/Storage/Memory.antt =====
-- `MemStorage` of src/storage/memory.rs. Its guards borrow it and do nothing when they are dropped.
use sawtooth_pbft.Common.{refl, true, Option, none, some}
use sawtooth_pbft.Storage.{Loading, Storage, IsStorage}

pub record MemStorage (T : Type 0) : Type 0 where
  pub data_of : T

-- `MemStorage::new`; the default may panic.
unfoldable pub new_memory : {T : Type 0} → Option T → Loading (MemStorage T)
new_memory none = Loading.panicked
new_memory (some t) = Loading.loaded (record { data_of = t })

-- The guards, which borrow the storage.
pub record MemStorageReadGuard (T : Type 0) : Type 0 where
  pub storage : MemStorage T

pub record MemStorageWriteGuard (T : Type 0) : Type 0 where
  pub storage : MemStorage T

module _ {T : Type 0} where
  abbrev pub memory_read_deref : MemStorageReadGuard T → T
  memory_read_deref g = g.storage.data_of

  abbrev pub memory_write_deref : MemStorageWriteGuard T → T
  memory_write_deref g = g.storage.data_of

  -- A change of the value that `deref_mut` refers to.
  abbrev pub memory_write_deref_mut : (T → T) → MemStorageWriteGuard T → MemStorageWriteGuard T
  memory_write_deref_mut f g = record { storage = record { data_of = f (memory_write_deref g) } }

-- `impl Storage for MemStorage`.
abbrev pub memory_storage : (T D : Type 0) → Storage T D (MemStorage T)
memory_storage T D = record {
  read = λ st. memory_read_deref (record { storage = st });
  deref_mut = λ f st. (memory_write_deref_mut f (record { storage = st })).storage;
  drop = λ st d. (true, d);
}

pub memory_storage-IsStorage : (T D : Type 0) → IsStorage (memory_storage T D)
memory_storage-IsStorage T D f st = refl
