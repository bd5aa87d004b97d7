-- ===== src/Storage/Reopened.antt =====
-- What a disk storage leaves in its file is what `from_path` loads again.
use sawtooth_pbft.Common.{
  Bool-cases, Option-cases, String, ◌≡◌, refl, sym, ◌∙◌, subst, inl, inr, true, false, Option, none,
  some, List, [], ◌∷◌, arith,
}
use sawtooth_pbft.Storage.{Serde, Opened, Files, ReadsBack, ParsesBack, Loading, write, write_all}
use sawtooth_pbft.Storage.Disk.{
  DiskStorage, write_value, create_file, load_text, from_path, disk_drop, disk_storage,
}

module _ {T D : Type 0} (files : Files D) (serde : Serde T) (back : ReadsBack files)
    (parses : ParsesBack serde) where
  wrote :
      (path text : String) (t : T) (d : D)
      → serde.to_string t ≡ some text
      → write_value files serde path t d ≡ files.write_file path text d
  unfolding write_value
  wrote path text t d e = rw (write_value, e) refl

  has_text :
      (path : String) (t : T) (d : D)
      → (write_value files serde path t d).0 ≡ true
      → (text : String) × (serde.to_string t ≡ some text)
  unfolding write_value
  has_text path t d h = elim (Option-cases (serde.to_string t)) [
    | inl e ↦ ground arith
    | inr there ↦ there
  ]

  loads :
      (path text : String) (t : T) (default : Option T) (d : D)
      → files.open_file path d ≡ Opened.contents text
      → serde.from_str text ≡ some t
      → from_path files serde path default d
        ≡ (Loading.loaded (record { data_of = t; file = path }), d)
  unfolding from_path load_text
  loads path text t default d there parsed = rw (from_path, there, load_text, parsed) refl

  -- A value that was written is loaded, whatever default is given.
  written_value :
      (path : String) (t : T) (default : Option T) (d : D)
      → (write_value files serde path t d).0 ≡ true
      → from_path files serde path default (write_value files serde path t d).1 ≡ (
        Loading.loaded (record { data_of = t; file = path }),
        (write_value files serde path t d).1,
      )
  written_value path t default d h =
      let (text, e) = has_text path t d h in
      let same = wrote path text t d e in
      loads path text t default (write_value files serde path t d).1
        (subst (λ w. files.open_file path w.1 ≡ Opened.contents text) (sym same)
          (back.written path text d (subst (λ w. w.0 ≡ true) same h)))
        (parses t text e)

  -- The storage is what `from_path` loads from its file.
  abbrev IsSaved : DiskStorage T → D → Type 0
  IsSaved st d =
      (default : Option T) → from_path files serde st.file default d ≡ (Loading.loaded st, d)

  write-IsSaved :
      (f : T → T) (w : DiskStorage T × D)
      → (write (disk_storage files serde) f w).0 ≡ true
      → IsSaved
          (write (disk_storage files serde) f w).1.0
          (write (disk_storage files serde) f w).1.1
  unfolding write disk_drop
  write-IsSaved f (st, d) h default = written_value st.file (f st.data_of) default d h

  write_all-IsSaved :
      (fs : List (T → T)) (w : DiskStorage T × D)
      → IsSaved w.0 w.1
      → (write_all (disk_storage files serde) fs w).0 ≡ true
      → IsSaved
          (write_all (disk_storage files serde) fs w).1.0
          (write_all (disk_storage files serde) fs w).1.1
  unfolding write_all
  write_all-IsSaved [] w saved h = saved
  write_all-IsSaved (f ∷ fs) w saved h =
      elim (Bool-cases (write (disk_storage files serde) f w).0) [
        | inl e ↦ rw e (
            write_all-IsSaved fs (write (disk_storage files serde) f w).1 (write-IsSaved f w e)
              (went_on e))
        | inr e ↦ absurd (stopped e)
      ]
    where
      went_on :
          (write (disk_storage files serde) f w).0 ≡ true
          → (write_all (disk_storage files serde) fs (write (disk_storage files serde) f w).1).0
            ≡ true
      went_on e = ground arith

      stopped : (write (disk_storage files serde) f w).0 ≡ false → ⊥
      stopped e = ground arith

  write_all-file :
      (fs : List (T → T)) (w : DiskStorage T × D)
      → (write_all (disk_storage files serde) fs w).1.0.file ≡ w.0.file
  unfolding write_all write
  write_all-file [] w = refl
  write_all-file (f ∷ fs) w =
      ground (arith, write_all-file fs (write (disk_storage files serde) f w).1)

  -- A loaded storage is of its path, and saved there.
  abbrev LoadsSaved : String → Loading (DiskStorage T) × D → Type 0
  LoadsSaved path (Loading.loaded st, d) = (st.file ≡ path) × IsSaved st d
  LoadsSaved path (Loading.refused e, d) = Unit {0}
  LoadsSaved path (Loading.panicked, d) = Unit {0}

  create_file-LoadsSaved :
      (path : String) (default : Option T) (d : D)
      → LoadsSaved path (create_file files serde path default d)
  unfolding create_file
  create_file-LoadsSaved path none d = tt
  create_file-LoadsSaved path (some t) d = elim (Bool-cases (write_value files serde path t d).0) [
    | inl e ↦ rw e (refl, λ default. written_value path t default d e)
    | inr e ↦ rw e tt
  ]

  from_path-LoadsSaved :
      (path : String) (default : Option T) (d : D)
      → LoadsSaved path (from_path files serde path default d)
  unfolding from_path load_text
  from_path-LoadsSaved path default d = opened (files.open_file path d) refl
    where
      opened :
          (o : Opened)
          → files.open_file path d ≡ o
          → LoadsSaved path (from_path files serde path default d)
      opened Opened.missing e = rw (from_path, e) (create_file-LoadsSaved path default d)
      opened Opened.unreadable e = rw (from_path, e) tt
      opened (Opened.contents text) e = elim (Option-cases (serde.from_str text)) [
        | inl f ↦ rw (from_path, e, load_text, f) tt
        | inr (t, f) ↦
            rw (from_path, e, load_text, f) (refl, λ default. rw (from_path, e, load_text, f) refl)
      ]

  -- A loaded storage stays at its path.
  pub write_all-path :
      (path : String) (default : Option T) (fs : List (T → T)) (st : DiskStorage T) (d d' : D)
      → from_path files serde path default d ≡ (Loading.loaded st, d')
      → (write_all (disk_storage files serde) fs (st, d')).1.0.file ≡ path
  write_all-path path default fs st d d' made =
      write_all-file fs (st, d')
      ∙ (subst (LoadsSaved path) made (from_path-LoadsSaved path default d)).0

  -- A storage that was loaded or created from a path, and then changed through any row of write guards
  -- that were dropped without a panic, is what `from_path` loads from that path afterwards, whatever
  -- default it is given; the files are as they were. That is so where files and values are read back as
  -- they were written.
  pub write_all-from_path :
      (path : String) (default again : Option T) (fs : List (T → T)) (st : DiskStorage T) (d d' : D)
      → from_path files serde path default d ≡ (Loading.loaded st, d')
      → (write_all (disk_storage files serde) fs (st, d')).0 ≡ true
      → from_path files serde path again (write_all (disk_storage files serde) fs (st, d')).1.1 ≡ (
        Loading.loaded (write_all (disk_storage files serde) fs (st, d')).1.0,
        (write_all (disk_storage files serde) fs (st, d')).1.1,
      )
  write_all-from_path path default again fs st d d' made h =
      let saved = subst (LoadsSaved path) made (from_path-LoadsSaved path default d) in
      subst
        (λ p.
          from_path files serde p again (write_all (disk_storage files serde) fs (st, d')).1.1 ≡ (
            Loading.loaded (write_all (disk_storage files serde) fs (st, d')).1.0,
            (write_all (disk_storage files serde) fs (st, d')).1.1,
          ))
        (write_all-file fs (st, d') ∙ saved.0) (write_all-IsSaved fs (st, d') saved.1 h again)
