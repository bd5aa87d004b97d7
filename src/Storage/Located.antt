-- ===== src/Storage/Located.antt =====
-- Which locations `get_storage` takes.
use text.Mathlib.Text.{starts_with}
use text.Mathlib.TextLemmas.{nil-append, cons-append}
use Prim.Native.String.{◌++◌}
use Prim.Native.Char.{code}
use sawtooth_pbft.Common.{
  Bool-cases, ◌==◌, ==_iff, nat_eq, string_eq, bytes_eq, String, ◌≡◌, refl, subst, ◌≢◌, ◌↔◌, ◌⊎◌,
  inl, inr, true, false, Option, none, some, [], ◌∷◌, arith,
}
use sawtooth_pbft.Protos.{block_eq, info_eq, message_eq, seal_eq, view_change_eq}
use sawtooth_pbft.MessageType.{type_eq}
use sawtooth_pbft.ParsedMessage.{parsed_eq}
use sawtooth_pbft.State.{phase_eq}
use sawtooth_pbft.Log.{entry_eq}
use sawtooth_pbft.Storage.Locations.{
  splitn, AnyStorage, boxed_memory, unwrapped_disk, open_disk, get_storage,
}
use sawtooth_pbft.Storage.{Serde, Files, Loading}
use sawtooth_pbft.Storage.Disk.{DiskStorage, from_path}
use sawtooth_pbft.Storage.Memory.{new_memory}

abbrev pub HasNoPlus : String → Type 0
HasNoPlus String.[] = Unit {0}
HasNoPlus (String.◌∷◌ c s) = ((code c == b'+') ≡ false) × HasNoPlus s

-- The text is cut at the first `+`.
splitn_plus :
    (scheme path : String)
    → HasNoPlus scheme
    → splitn (scheme ++ ("+" ++ path)) ≡ scheme ∷ path ∷ []
unfolding splitn
splitn_plus String.[] path h = rw (nil-append ("+" ++ path), cons-append, nil-append path) refl
splitn_plus (String.◌∷◌ c s) path h =
    rw (cons-append c s ("+" ++ path), h.0, splitn_plus s path h.1) refl

-- A text with two parts has a `+`, and one without has one part.
splitn_cases :
    (s : String)
    → (HasNoPlus s × (splitn s ≡ s ∷ []))
      ⊎ (¬ HasNoPlus s × ((a : String) × ((p : String) × (splitn s ≡ a ∷ p ∷ []))))
unfolding splitn
splitn_cases String.[] = inl (tt, refl)
splitn_cases (String.◌∷◌ c s) = elim (Bool-cases (code c == b'+')) [
  | inl e ↦ inr (λ h. cc, ("", (s, rw e refl)))
  | inr e ↦ further (splitn_cases s) e
]
  where
    further :
        (HasNoPlus s × (splitn s ≡ s ∷ []))
          ⊎ (¬ HasNoPlus s × ((a : String) × ((p : String) × (splitn s ≡ a ∷ p ∷ []))))
        → (code c == b'+') ≡ false
        → (HasNoPlus (String.◌∷◌ c s) × (splitn (String.◌∷◌ c s) ≡ String.◌∷◌ c s ∷ []))
          ⊎ (¬ HasNoPlus (String.◌∷◌ c s)
              × ((a : String) × ((p : String) × (splitn (String.◌∷◌ c s) ≡ a ∷ p ∷ []))))
    further (inl (h, q)) e = inl ((e, h), rw (e, q) refl)
    further (inr (h, (a, (p, q)))) e = inr (λ g. h g.1, (String.◌∷◌ c a, (p, rw (e, q) refl)))

memory_is_no_disk :
    (location : String) → starts_with location "disk" ≡ true → (location == "memory") ≡ false
memory_is_no_disk location h = elim (Bool-cases (location == "memory")) [
  | inl e ↦
      absurd (apart (subst (λ s. starts_with s "disk" ≡ true) ((==_iff location "memory").0 e) h))
  | inr e ↦ e
]
  where
    apart : starts_with "memory" "disk" ≡ true → ⊥
    apart h = cc

module _ {T D : Type 0} (files : Files D) (serde : Serde T) where
  -- A location is cut at its first `+`: behind a scheme that starts with `disk` stands the path of the
  -- file. A file that cannot be loaded or created ends in a panic, not in an error.
  pub get_storage-disk :
      (scheme path : String) (default : Option T) (d : D)
      → HasNoPlus scheme
      → starts_with (scheme ++ ("+" ++ path)) "disk" ≡ true
      → get_storage files serde (scheme ++ ("+" ++ path)) default d ≡ (
        unwrapped_disk (from_path files serde path default d).0,
        (from_path files serde path default d).1,
      )
  unfolding get_storage open_disk
  get_storage-disk scheme path default d h disk =
      rw (memory_is_no_disk (scheme ++ ("+" ++ path)) disk, disk, splitn_plus scheme path h) refl

  abbrev pub IsRefused : Loading (AnyStorage T) → Type 0
  IsRefused (Loading.loaded st) = ⊥
  IsRefused (Loading.refused e) = Unit {0}
  IsRefused Loading.panicked = ⊥

  memory_is_taken : (default : Option T) → ¬ IsRefused (boxed_memory (new_memory default))
  unfolding new_memory
  memory_is_taken none h = h
  memory_is_taken (some t) h = h

  disk_is_taken : (st : Loading (DiskStorage T)) → ¬ IsRefused (unwrapped_disk st)
  disk_is_taken (Loading.loaded st) h = h
  disk_is_taken (Loading.refused e) h = h
  disk_is_taken Loading.panicked h = h

  -- `get_storage` gives an error for exactly the locations that are not `memory` and do not start with
  -- `disk` or have no `+`, whatever is in the files.
  pub get_storage-IsRefused_iff :
      (location : String) (default : Option T) (d : D)
      → IsRefused (get_storage files serde location default d).0
        ↔ ((location ≢ "memory") × ((starts_with location "disk" ≡ false) ⊎ HasNoPlus location))
  unfolding get_storage open_disk
  get_storage-IsRefused_iff location default d = elim (Bool-cases (location == "memory")) [
    | inl m ↦
        rw (get_storage, m)
          (
            λ h. absurd (memory_is_taken default h),
            λ h. absurd (h.0 ((==_iff location "memory").0 m)),
          )
    | inr m ↦ elim (Bool-cases (starts_with location "disk")) [
      | inl disk ↦ parted m disk (splitn_cases location)
      | inr other ↦ rw (get_storage, m, other) (λ h. (differs m, inl refl), λ h. tt)
    ]
  ]
    where
      differs : (location == "memory") ≡ false → location ≢ "memory"
      differs m e = ground (arith, (==_iff location "memory").1 e)

      parted :
          (location == "memory") ≡ false
          → starts_with location "disk" ≡ true
          → (HasNoPlus location × (splitn location ≡ location ∷ []))
            ⊎ (¬ HasNoPlus location
                × ((a : String) × ((p : String) × (splitn location ≡ a ∷ p ∷ []))))
          → IsRefused (get_storage files serde location default d).0
            ↔ ((location ≢ "memory") × ((starts_with location "disk" ≡ false) ⊎ HasNoPlus location))
      parted m disk (inl (h, q)) = rw (get_storage, m, disk, q) (λ r. (differs m, inr h), λ r. tt)
      parted m disk (inr (h, (a, (p, q)))) =
          rw (get_storage, m, disk, q)
            (
              λ r. absurd (disk_is_taken (from_path files serde p default d).0 r),
              λ r. absurd (elim r.1 [ inl e ↦ cc | inr g ↦ h g ]),
            )
