-- ===== src/Storage/Locations.antt =====
-- `get_storage` of src/storage/mod.rs.
use Prim.Native.Char.{Char, code}
use text.Mathlib.Text.{starts_with}
use sawtooth_pbft.Common.{
  if◌then◌else◌, ◌==◌, nat_eq, string_eq, bytes_eq, String, Bool, Option, List, [], ◌∷◌,
}
use sawtooth_pbft.Protos.{block_eq, info_eq, message_eq, seal_eq, view_change_eq}
use sawtooth_pbft.MessageType.{type_eq}
use sawtooth_pbft.ParsedMessage.{parsed_eq}
use sawtooth_pbft.State.{phase_eq}
use sawtooth_pbft.Log.{entry_eq}
use sawtooth_pbft.Storage.{Serde, Files, StorageError, Loading, Storage, IsStorage}
use sawtooth_pbft.Storage.Memory.{MemStorage, new_memory, memory_storage, memory_storage-IsStorage}
use sawtooth_pbft.Storage.Disk.{
  DiskStorage, from_path, disk_drop, disk_storage, disk_storage-IsStorage,
}

abbrev push_front : Char → List String → List String
push_front c [] = []
push_front c (s ∷ ss) = String.◌∷◌ c s ∷ ss

-- `splitn(2, '+')`: the text before the first `+` and the one after it, or the whole text.
unfoldable pub splitn : String → List String
splitn String.[] = "" ∷ []
splitn (String.◌∷◌ c s) =
    let parts = splitn s in if code c == b'+' then "" ∷ s ∷ [] else push_front c parts

-- The answer of `get_storage`, a `Box<dyn Storage>`.
pub data AnyStorage (T : Type 0) : Type 0 where
  memory : MemStorage T → AnyStorage T
  disk : DiskStorage T → AnyStorage T

-- `Box::new`, behind `unwrap` where the storage is on disk.
abbrev pub boxed_memory : {T : Type 0} → Loading (MemStorage T) → Loading (AnyStorage T)
boxed_memory (Loading.loaded st) = Loading.loaded (AnyStorage.memory st)
boxed_memory (Loading.refused e) = Loading.refused e
boxed_memory Loading.panicked = Loading.panicked

abbrev pub unwrapped_disk : {T : Type 0} → Loading (DiskStorage T) → Loading (AnyStorage T)
unwrapped_disk (Loading.loaded st) = Loading.loaded (AnyStorage.disk st)
unwrapped_disk (Loading.refused e) = Loading.panicked
unwrapped_disk Loading.panicked = Loading.panicked

module _ {T D : Type 0} (files : Files D) (serde : Serde T) where
  -- The branch of a location that starts with `disk`: it has to have two parts.
  unfoldable pub open_disk : String → List String → Option T → D → Loading (AnyStorage T) × D
  unfolding from_path
  open_disk location (scheme ∷ path ∷ []) default d =
      let (st, d') = from_path files serde path default d in (unwrapped_disk st, d')
  open_disk location _ default d = (Loading.refused (StorageError.invalid_location location), d)

  unfoldable pub get_storage : String → Option T → D → Loading (AnyStorage T) × D
  unfolding open_disk new_memory splitn
  get_storage location default d =
      if location == "memory"
      then (boxed_memory (new_memory default), d)
      else if starts_with location "disk"
      then open_disk location (splitn location) default d
      else (Loading.refused (StorageError.unknown_location location), d)

  -- The calls through the `Box`.
  unfoldable pub any_read : AnyStorage T → T
  any_read (AnyStorage.memory st) = (memory_storage T D).read st
  any_read (AnyStorage.disk st) = (disk_storage files serde).read st

  unfoldable pub any_deref_mut : (T → T) → AnyStorage T → AnyStorage T
  any_deref_mut f (AnyStorage.memory st) = AnyStorage.memory ((memory_storage T D).deref_mut f st)
  any_deref_mut f (AnyStorage.disk st) = AnyStorage.disk ((disk_storage files serde).deref_mut f st)

  unfoldable pub any_drop : AnyStorage T → D → Bool × D
  unfolding disk_drop
  any_drop (AnyStorage.memory st) = (memory_storage T D).drop st
  any_drop (AnyStorage.disk st) = (disk_storage files serde).drop st

  abbrev pub any_storage : Storage T D (AnyStorage T)
  any_storage = record { read = any_read; deref_mut = any_deref_mut; drop = any_drop }

  pub any_storage-IsStorage : IsStorage any_storage
  unfolding any_read any_deref_mut
  any_storage-IsStorage f (AnyStorage.memory st) = memory_storage-IsStorage T D f st
  any_storage-IsStorage f (AnyStorage.disk st) = disk_storage-IsStorage files serde f st
