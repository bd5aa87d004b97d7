-- ===== src/Display/ShortIds.antt =====
-- The short form of an ID, in the texts of src/state.rs and src/error.rs.
use Prim.Native.Char.{Char, len_utf8}
use Prim.Native.Nat.compare as compare_ℕ
use Prim.Native.Nat.{compare as compare_ℕ}
use Prim.Native.String.len
use Prim.Native.String.slice
use Prim.Native.String.{◌∷◌ as cons, len, slice, fits}
use text.Mathlib.Text.{when, get?, is_eq, is_char_boundary}
use text.Mathlib.TextPositions.{boundary-zero, slice-zero-zero}
use sawtooth_pbft.Common.{
  Option-cases, Bytes, length, ℕ, zero, suc, String, ◌≡◌, refl, sym, ap, ◌∙◌, ◌↔◌, ◌⊎◌, inl, inr,
  ◌<◌, ◌+◌, ◌-◌, ◌&&◌, [], ◌∷◌, arith,
}
use sawtooth_pbft.Error.{Outcome, ok, panic}
use sawtooth_pbft.Outcome.{or_panic}
use sawtooth_pbft.Display.{short_id}

-- What hex writes: two characters of one byte each for every byte.
pub record IsHex (hex_encode : Bytes → String) : Type 0 where
  pub of_nil : hex_encode [] ≡ ""
  pub of_cons :
      (b : ℕ) (bs : Bytes)
      → (c : Char) × (d : Char) × (len_utf8 c ≡ 1)
        × (len_utf8 d ≡ 1)
        × (hex_encode (b ∷ bs) ≡ cons c (cons d (hex_encode bs)))

-- Twice a number, and the least of two.
twice : ℕ → ℕ
twice zero = zero
twice (suc n) = suc (suc (twice n))

least : ℕ → ℕ → ℕ
least zero n = zero
least (suc m) zero = zero
least (suc m) (suc n) = suc (least m n)

-- A first character of one byte.
fits_one : (n : ℕ) (c : Char) (r : String) → fits (compare_ℕ 1 (suc n)) c r ≡ cons c r
fits_one zero c r = refl
fits_one (suc n) c r = ap (λ o. fits o c r) (compare_ℕ.suc-suc 0 (suc n) ∙ compare_ℕ.zero-suc n)

slice_one :
    (c : Char) (s : String) (n : ℕ)
    → len_utf8 c ≡ 1
    → slice (cons c s) 0 (suc n) ≡ cons c (slice s 0 n)
slice_one c s n e =
    slice.cons-zero c s (suc n)
    ∙ ap (λ w. fits (compare_ℕ w (suc n)) c (slice s 0 (suc n - w))) e
    ∙ fits_one n c (slice s 0 (suc n - 1))
    ∙ ap (λ k. cons c (slice s 0 k)) (omega arith)

len_one : (c : Char) (s : String) → len_utf8 c ≡ 1 → len (cons c s) ≡ suc (len s)
len_one c s e = len.cons c s ∙ ap (λ w. w + len s) e ∙ omega arith

module _ (hex_encode : Bytes → String) (hex : IsHex hex_encode) where
  len-slice :
      (n : ℕ) (id : Bytes) → len (slice (hex_encode id) 0 (twice n)) ≡ twice (least n (length id))
  unfolding twice least
  len-slice zero id = ap len (slice-zero-zero (hex_encode id)) ∙ len.nil
  len-slice (suc n) [] =
      ap (λ t. len (slice t 0 (twice (suc n)))) hex.of_nil
      ∙ ap len (slice.nil 0 (twice (suc n)))
      ∙ len.nil
  len-slice (suc n) (b ∷ bs) =
      let (c, d, ec, ed, e) = hex.of_cons b bs in
      ap (λ t. len (slice t 0 (twice (suc n)))) e
      ∙ ap len (slice_one c (cons d (hex_encode bs)) (suc (twice n)) ec)
      ∙ len_one c (slice (cons d (hex_encode bs)) 0 (suc (twice n))) ec
      ∙ ap (λ t. suc (len t)) (slice_one d (hex_encode bs) (twice n) ed)
      ∙ ap suc (len_one d (slice (hex_encode bs) 0 (twice n)) ed)
      ∙ ap (λ k. suc (suc k)) (len-slice n bs)

  sliced :
      (id : Bytes)
      → get? (hex_encode id) 0 6
        ≡ when (is_eq (compare_ℕ (twice (least 3 (length id))) 6)) (slice (hex_encode id) 0 6)
  unfolding twice
  sliced id =
      ap (λ b. when (b && is_char_boundary (hex_encode id) 6) (slice (hex_encode id) 0 6))
        (boundary-zero (hex_encode id))
      ∙ ap (λ k. when (is_eq (compare_ℕ k 6)) (slice (hex_encode id) 0 6)) (len-slice 3 id)

  -- The short form of an ID panics exactly if the ID has fewer than three bytes.
  pub short_id-panics_iff : (id : Bytes) → (short_id hex_encode id ≡ panic) ↔ (length id < 3)
  unfolding short_id twice least
  short_id-panics_iff id = go id (ap or_panic (sliced id))
    where
      go :
          (xs : Bytes)
          → short_id hex_encode id
            ≡ or_panic (
                when
                  (is_eq (compare_ℕ (twice (least 3 (length xs))) 6))
                  (slice (hex_encode id) 0 6))
          → (short_id hex_encode id ≡ panic) ↔ (length xs < 3)
      go [] e = (λ h. omega arith, λ h. e)
      go (a ∷ []) e = (λ h. omega arith, λ h. e)
      go (a ∷ b ∷ []) e = (λ h. omega arith, λ h. e)
      go (a ∷ b ∷ c ∷ ds) e = (λ h. absurd (apart (sym e ∙ h)), λ h. ground arith)
        where
          apart : {t : String} → ok t ≡ panic → ⊥
          apart q = cc

-- A text, or a panic.
abbrev pub IsShown : Outcome String → Type 0
IsShown r = (r ≡ panic) ⊎ ((t : String) × (r ≡ ok t))

pub short_id-IsShown : (hex_encode : Bytes → String) (id : Bytes) → IsShown (short_id hex_encode id)
unfolding short_id
short_id-IsShown hex_encode id = elim (Option-cases (get? (hex_encode id) 0 6)) [
  | inl e ↦ inl (ap or_panic e)
  | inr (t, e) ↦ inr (t, ap or_panic e)
]
