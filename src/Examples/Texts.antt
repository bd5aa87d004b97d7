-- ===== src/Examples/Texts.antt =====
-- A hexadecimal form, and the texts of concrete errors and states.
use Prim.Native.Char.{Char, len_utf8}
use Prim.Native.String.{◌∷◌ as cons}
use sawtooth_pbft.Common.{Bytes, ℕ, zero, suc, ◌/◌, ◌%◌, String, ◌≡◌, refl, ◌↔◌, ◌⊎◌, [], ◌∷◌}
use sawtooth_pbft.Error.{PbftError, description, ok, panic}
use sawtooth_pbft.Display.{
  digits, decimal, display_mode, display_phase, short_id, display_working_block, display_state,
  display_rest, display_error,
}
use sawtooth_pbft.Display.ShortIds.{IsHex}
use sawtooth_pbft.Display.Shown.{IsShort, display_error-panics_iff}
use sawtooth_pbft.Examples.Logs.{test_block}
use sawtooth_pbft.Examples.Nodes.{test_state}

-- The character at an index, and f beyond.
pick : String → ℕ → Char
pick String.[] n = "f"
pick (cons c s) zero = c
pick (cons c s) (suc n) = pick s n

-- All characters are of one byte.
IsSlim : String → Type 0
IsSlim String.[] = Unit
IsSlim (cons c s) = (len_utf8 c ≡ 1) × IsSlim s

pick-IsSlim : (s : String) (n : ℕ) → IsSlim s → len_utf8 (pick s n) ≡ 1
unfolding pick IsSlim
pick-IsSlim String.[] n h = refl
pick-IsSlim (cons c s) zero h = h.0
pick-IsSlim (cons c s) (suc n) h = pick-IsSlim s n h.1

abbrev digit : ℕ → Char
digit n = pick "0123456789abcdef" n

digit_width : (n : ℕ) → len_utf8 (digit n) ≡ 1
unfolding IsSlim
digit_width n = pick-IsSlim "0123456789abcdef" n (
  refl,
  (
    refl,
    (
      refl,
      (
        refl,
        (
          refl,
          (
            refl,
            (refl, (refl, (refl, (refl, (refl, (refl, (refl, (refl, (refl, (refl, tt)))))))))),
          ),
        ),
      ),
    ),
  ),
)

test_hex : Bytes → String
test_hex [] = ""
test_hex (b ∷ bs) = cons (digit (b / 16)) (cons (digit (b % 16)) (test_hex bs))

test_hex-IsHex : IsHex test_hex
unfolding test_hex
test_hex-IsHex = record {
  of_nil = refl;
  of_cons =
      λ b bs. (digit (b / 16), digit (b % 16), digit_width (b / 16), digit_width (b % 16), refl);
}

-- A mismatch with a block whose ID is one byte.
abbrev short_mismatch : PbftError
short_mismatch = PbftError.block_mismatch test_block (record test_block { block_id = 171 ∷ [] })

mismatch_text :
    display_error test_hex "" (PbftError.block_mismatch test_block test_block)
    ≡ ok "BlockMismatch: \"070707\" != \"070707\""
unfolding test_hex pick short_id display_error display_rest description
mismatch_text = refl

display_error_example :
    (display_error test_hex "" short_mismatch ≡ panic)
    ↔ (IsShort test_block.block_id ⊎ IsShort (171 ∷ []))
display_error_example = display_error-panics_iff test_hex test_hex-IsHex "" short_mismatch

state_text :
    display_state test_hex (record test_state { id = 18 ∷ 171 ∷ 0 ∷ []; seq_num = 1205 })
    ≡ ok "(PP N 0, seq 1205, wb 5/070707), Node  12ab00"
unfolding test_hex pick short_id display_state display_working_block display_phase display_mode
    decimal digits
state_text = refl
