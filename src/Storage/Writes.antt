-- ===== src/Storage/Writes.antt =====
-- Every storage refines one value that each write changes.
use sawtooth_pbft.Common.{
  Bool-cases, ◌≡◌, refl, ap, ◌∙◌, inl, inr, true, false, List, [], ◌∷◌, arith,
}
use sawtooth_pbft.Storage.{Storage, IsStorage, write, write_all}

-- The abstract storage: a value, changed by one write after the other.
abbrev pub written : {T : Type 0} → List (T → T) → T → T
written [] t = t
written (f ∷ fs) t = written fs (f t)

module _ {T D St : Type 0} (s : Storage T D St) (law : IsStorage s) where
  -- What a storage reads after a row of uses of `write()`.
  pub read-write_all :
      (fs : List (T → T)) (w : St × D)
      → (write_all s fs w).0 ≡ true
      → s.read (write_all s fs w).1.0 ≡ written fs (s.read w.0)
  unfolding write_all write
  read-write_all [] w h = refl
  read-write_all (f ∷ fs) w h = elim (Bool-cases (write s f w).0) [
    | inl e ↦ rw e (read-write_all fs (write s f w).1 (went_on e) ∙ ap (written fs) (law f w.0))
    | inr e ↦ absurd (stopped e)
  ]
    where
      went_on : (write s f w).0 ≡ true → (write_all s fs (write s f w).1).0 ≡ true
      went_on e = ground arith

      stopped : (write s f w).0 ≡ false → ⊥
      stopped e = ground arith
