-- ===== src/Examples/Storages.antt =====
-- Storages in memory and on a disk that keeps every text written to it.
use Prim.Native.String.{◌++◌}
use sawtooth_pbft.Common.{
  if◌then◌else◌, ◌==◌, ==_refl, nat_eq, string_eq, bytes_eq, String, ◌≡◌, refl, true, none, some,
  List, [], ◌∷◌,
}
use sawtooth_pbft.Protos.{block_eq, info_eq, message_eq, seal_eq, view_change_eq}
use sawtooth_pbft.MessageType.{type_eq}
use sawtooth_pbft.ParsedMessage.{parsed_eq}
use sawtooth_pbft.State.{phase_eq}
use sawtooth_pbft.Log.{entry_eq}
use sawtooth_pbft.Storage.{Serde, Opened, Files, ReadsBack, ParsesBack, Loading, write, write_all}
use sawtooth_pbft.Storage.Disk.{
  DiskStorage, write_value, create_file, from_path, disk_drop, disk_storage,
}
use sawtooth_pbft.Storage.Reopened.{write_all-from_path}
use sawtooth_pbft.Storage.Refined.{write_all-refines}

-- The texts of the files, latest first.
abbrev pub Texts : Type 0
Texts = List (String × String)

unfoldable pub opened_text : String → Texts → Opened
opened_text path [] = Opened.missing
opened_text path ((p, text) ∷ d) =
    let older = opened_text path d in if p == path then Opened.contents text else older

abbrev pub test_files : Files Texts
test_files = record {
  open_file = opened_text;
  write_file = λ path text d. (true, (path, text) ∷ d);
}

test_files-ReadsBack : ReadsBack test_files
unfolding opened_text
test_files-ReadsBack = record { written = λ path text d h. rw (==_refl path) refl }

-- A text is kept as it is.
abbrev text_serde : Serde String
text_serde = record { to_string = λ t. some t; from_str = λ s. some s }

text_serde-ParsesBack : ParsesBack text_serde
text_serde-ParsesBack t text h = cc

abbrev two_writes : List (String → String)
two_writes = (λ s. s ++ "b") ∷ (λ s. s ++ "c") ∷ []

abbrev at_a : DiskStorage String
at_a = record { data_of = "a"; file = "/tmp/x" }

abbrev disk_at_a : Texts
disk_at_a = ("/tmp/x", "a") ∷ []

created : from_path test_files text_serde "/tmp/x" (some "a") [] ≡ (Loading.loaded at_a, disk_at_a)
unfolding from_path create_file write_value opened_text
created = refl

two_written_there :
    (write_all (disk_storage test_files text_serde) two_writes (at_a, disk_at_a)).0 ≡ true
unfolding write_all write disk_drop write_value
two_written_there = refl

write_all-from_path_example :
    from_path test_files text_serde "/tmp/x" none
      (write_all (disk_storage test_files text_serde) two_writes (at_a, disk_at_a)).1.1
    ≡ (
      Loading.loaded
          (write_all (disk_storage test_files text_serde) two_writes (at_a, disk_at_a)).1.0,
      (write_all (disk_storage test_files text_serde) two_writes (at_a, disk_at_a)).1.1,
    )
write_all-from_path_example =
    write_all-from_path test_files text_serde test_files-ReadsBack text_serde-ParsesBack "/tmp/x"
      (some "a") none two_writes at_a [] disk_at_a created two_written_there

-- Both changes are in the file, whatever default is given.
write_all-refines_example :
    (from_path test_files text_serde "/tmp/x"
      (some "z")
      (write_all (disk_storage test_files text_serde) two_writes (at_a, disk_at_a)).1.1).0
    ≡ Loading.loaded (record { data_of = "abc"; file = "/tmp/x" })
write_all-refines_example =
    write_all-refines test_files text_serde test_files-ReadsBack text_serde-ParsesBack "/tmp/x"
      (some "a") (some "z") two_writes at_a [] disk_at_a created two_written_there

abbrev tape : String
tape = "tape"
