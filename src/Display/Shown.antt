-- ===== src/Display/Shown.antt =====
-- Where the texts of src/state.rs and src/error.rs panic.
use Prim.Native.String.{◌++◌}
use sawtooth_pbft.Common.{
  Bytes, length, String, ◌≡◌, refl, sym, ◌∙◌, ◌↔◌, ◌⊎◌, inl, inr, ◌<◌, Option, none, some,
}
use sawtooth_pbft.Protos.{PbftBlock}
use sawtooth_pbft.Error.{PbftError, description, Outcome, ok, err, panic, out_of_fuel}
use sawtooth_pbft.Outcome.{◌>>=◌}
use sawtooth_pbft.State.{PbftState}
use sawtooth_pbft.Display.{
  decimal, short_id, display_working_block, display_state, quoted, display_rest, display_error,
}
use sawtooth_pbft.Display.ShortIds.{IsHex, short_id-panics_iff, IsShown, short_id-IsShown}

-- An ID of fewer than three bytes.
abbrev pub IsShort : Bytes → Type 0
IsShort id = length id < 3

not_ok : {t : String} → ok t ≡ panic → ⊥
not_ok h = cc

-- A text put into another.
then-panics :
    (r : Outcome String) (f : String → String) → ((r >>= λ t. ok (f t)) ≡ panic) ↔ (r ≡ panic)
then-panics (ok t) f = (λ h. absurd (not_ok h), λ h. absurd (not_ok h))
then-panics (err x) f = (λ h. cc, λ h. cc)
then-panics panic f = (λ h. h, λ h. h)
then-panics out_of_fuel f = (λ h. cc, λ h. cc)

-- Two texts make one, and it panics if one of them does.
both-panics :
    (r s : Outcome String) (f : String → String → String)
    → IsShown r
    → IsShown s
    → ((r >>= λ a. s >>= λ b. ok (f a b)) ≡ panic) ↔ ((r ≡ panic) ⊎ (s ≡ panic))
both-panics r s f (inl e) (inl g) = (λ h. inl e, λ h. rw e refl)
both-panics r s f (inl e) (inr (u, g)) = (λ h. inl e, λ h. rw e refl)
both-panics r s f (inr (t, e)) (inl g) = (λ h. inr g, λ h. rw (e, g) refl)
both-panics r s f (inr (t, e)) (inr (u, g)) = (
  λ h. absurd (not_ok (sym value ∙ h)),
  λ h. elim h [ inl p ↦ absurd (not_ok (sym e ∙ p)) | inr p ↦ absurd (not_ok (sym g ∙ p)) ],
)
  where
    value : (r >>= λ a. s >>= λ b. ok (f a b)) ≡ ok (f t u)
    value = rw (e, g) refl

module _ (hex_encode : Bytes → String) (hex : IsHex hex_encode) where
  -- The blocks of an error that its text shortens.
  abbrev pub HasShortBlock : PbftError → Type 0
  HasShortBlock (PbftError.block_mismatch a b) = IsShort a.block_id ⊎ IsShort b.block_id
  HasShortBlock e = ⊥

  either-IsShort :
      (a b : Bytes)
      → ((short_id hex_encode a ≡ panic) ⊎ (short_id hex_encode b ≡ panic))
        ↔ (IsShort a ⊎ IsShort b)
  either-IsShort a b =
      let (da, ua) = short_id-panics_iff hex_encode hex a in
      let (db, ub) = short_id-panics_iff hex_encode hex b in
      (
        λ h. elim h [ inl e ↦ inl (da e) | inr e ↦ inr (db e) ],
        λ h. elim h [ inl e ↦ inl (ua e) | inr e ↦ inr (ub e) ],
      )

  -- The text of an error panics exactly if the error is a mismatch of two blocks of which one has an ID of
  -- fewer than three bytes; any other error has a text.
  pub display_error-panics_iff :
      (protobuf_text : String) (e : PbftError)
      → (display_error hex_encode protobuf_text e ≡ panic) ↔ HasShortBlock e
  unfolding display_error display_rest
  display_error-panics_iff text (PbftError.block_mismatch a b) =
      let (d1, u1) =
        then-panics (display_rest hex_encode text (PbftError.block_mismatch a b))
          (λ rest. description (PbftError.block_mismatch a b) ++ (": " ++ rest)) in
      let (d2, u2) =
        both-panics (short_id hex_encode a.block_id) (short_id hex_encode b.block_id)
          (λ s t. quoted hex_encode s ++ (" != " ++ quoted hex_encode t))
          (short_id-IsShown hex_encode a.block_id) (short_id-IsShown hex_encode b.block_id) in
      let (d3, u3) = either-IsShort a.block_id b.block_id in
      (λ h. d3 (d2 (d1 h)), λ h. u1 (u2 (u3 h)))
  display_error-panics_iff text PbftError.serialization_error = (λ h. not_ok h, λ h. absurd h)
  display_error-panics_iff text (PbftError.wrong_num_messages t a b) =
      (λ h. not_ok h, λ h. absurd h)
  display_error-panics_iff text (PbftError.wrong_num_seals a b) = (λ h. not_ok h, λ h. absurd h)
  display_error-panics_iff text (PbftError.message_mismatch t) = (λ h. not_ok h, λ h. absurd h)
  display_error-panics_iff text (PbftError.view_mismatch a b) = (λ h. not_ok h, λ h. absurd h)
  display_error-panics_iff text (PbftError.internal_error t) = (λ h. not_ok h, λ h. absurd h)
  display_error-panics_iff text PbftError.node_not_found = (λ h. not_ok h, λ h. absurd h)
  display_error-panics_iff text PbftError.wrong_num_blocks = (λ h. not_ok h, λ h. absurd h)
  display_error-panics_iff text PbftError.timeout = (λ h. not_ok h, λ h. absurd h)
  display_error-panics_iff text PbftError.no_working_block = (λ h. not_ok h, λ h. absurd h)
  display_error-panics_iff text PbftError.not_ready_for_message = (λ h. not_ok h, λ h. absurd h)
  display_error-panics_iff text PbftError.not_from_primary = (λ h. not_ok h, λ h. absurd h)
  display_error-panics_iff text PbftError.no_block_new = (λ h. not_ok h, λ h. absurd h)

  -- A working block whose ID has fewer than three bytes.
  abbrev pub IsShortBlock : Option PbftBlock → Type 0
  IsShortBlock none = ⊥
  IsShortBlock (some b) = IsShort b.block_id

  working_block-IsShown :
      (w : Option PbftBlock)
      → ((display_working_block hex_encode w ≡ panic) ↔ IsShortBlock w)
        × IsShown (display_working_block hex_encode w)
  unfolding display_working_block
  working_block-IsShown none = ((λ h. not_ok h, λ h. absurd h), inr ("~none~", refl))
  working_block-IsShown (some b) =
      let (d1, u1) = then-panics (short_id hex_encode b.block_id) with_number in
      let (d2, u2) = short_id-panics_iff hex_encode hex b.block_id in
      (
        (λ h. d2 (d1 h), λ h. u1 (u2 h)),
        elim (short_id-IsShown hex_encode b.block_id) [
          | inl e ↦ inl (u1 e)
          | inr (t, e) ↦ inr (with_number t, rw e refl)
        ],
      )
    where
      with_number : String → String
      with_number id = decimal b.block_num ++ ("/" ++ id)

  -- The text of a state panics exactly if the ID of the node or that of its working block has fewer than
  -- three bytes.
  pub display_state-panics_iff :
      (s : PbftState)
      → (display_state hex_encode s ≡ panic) ↔ (IsShortBlock s.working_block ⊎ IsShort s.id)
  unfolding display_state
  display_state-panics_iff s =
      let ((d1, u1), shown) = working_block-IsShown s.working_block in
      let (d2, u2) = short_id-panics_iff hex_encode hex s.id in
      let (d, u) =
        both-panics (display_working_block hex_encode s.working_block) (short_id hex_encode s.id) _
          shown (short_id-IsShown hex_encode s.id) in
      (
        λ h. elim (d h) [ inl e ↦ inl (d1 e) | inr e ↦ inr (d2 e) ],
        λ h. u (elim h [ inl e ↦ inl (u1 e) | inr e ↦ inr (u2 e) ]),
      )
