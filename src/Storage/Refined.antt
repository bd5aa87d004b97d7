-- ===== src/Storage/Refined.antt =====
-- The disk storage of src/storage/disk.rs as one value in a file.
use sawtooth_pbft.Common.{String, ◌≡◌, ap, ◌∙◌, true, Option, List}
use sawtooth_pbft.Storage.{Serde, Files, ReadsBack, ParsesBack, Loading, write_all}
use sawtooth_pbft.Storage.Disk.{DiskStorage, from_path, disk_storage, disk_storage-IsStorage}
use sawtooth_pbft.Storage.Writes.{written, read-write_all}
use sawtooth_pbft.Storage.Reopened.{write_all-path, write_all-from_path}

module _ {T D : Type 0} (files : Files D) (serde : Serde T) (back : ReadsBack files)
    (parses : ParsesBack serde) where
  -- The file of a disk storage is one value that each use of `write()` changes: once a storage was loaded
  -- or created from a path, any row of uses that ends without a panic leaves a file from which
  -- `from_path` loads the value that the same changes, made in the same order, make of the value that was
  -- loaded at first, whatever default it is given. That is so where files and values are read back as
  -- they were written.
  pub write_all-refines :
      (path : String) (default again : Option T) (fs : List (T → T)) (st : DiskStorage T) (d d' : D)
      → from_path files serde path default d ≡ (Loading.loaded st, d')
      → (write_all (disk_storage files serde) fs (st, d')).0 ≡ true
      → (from_path files serde path again (write_all (disk_storage files serde) fs (st, d')).1.1).0
        ≡ Loading.loaded (record { data_of = written fs st.data_of; file = path })
  write_all-refines path default again fs st d d' made h =
      ap (λ r. r.0)
        (write_all-from_path files serde back parses path default again fs st d d' made h)
      ∙ ap
          (λ t. Loading.loaded (record {
            data_of = t;
            file = (write_all (disk_storage files serde) fs (st, d')).1.0.file;
          }))
          (read-write_all (disk_storage files serde) (disk_storage-IsStorage files serde) fs
            (st, d') h)
      ∙ ap (λ p. Loading.loaded (record { data_of = written fs st.data_of; file = p }))
          (write_all-path files serde back parses path default fs st d d' made)
