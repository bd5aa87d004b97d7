-- ===== src/Display.antt =====
-- The texts that the `Display` instances of src/state.rs, src/error.rs, src/message_log.rs and
-- src/message_type.rs write. `hex_encode` is `encode` of the crate hex.
pub mod ShortIds
pub mod Shown
use Prim.Native.String.{◌++◌, slice}
use text.Mathlib.Text.{get?}
use sawtooth_pbft.Common.{
  ltb, if◌then◌else◌, Bytes, ℕ, zero, suc, ◌/◌, ◌%◌, String, Option, none, some, List, [], ◌∷◌, map,
}
use sawtooth_pbft.Protos.{PbftBlock, PbftMessageInfo}
use sawtooth_pbft.MessageType.{PbftMessageType}
use sawtooth_pbft.Error.{PbftError, description, Outcome, ok}
use sawtooth_pbft.Outcome.{◌>>=◌, or_panic}
use sawtooth_pbft.ParsedMessage.{ParsedMessage, info}
use sawtooth_pbft.State.{PbftPhase, PbftMode, PbftState, is_primary}
use sawtooth_pbft.Log.{PbftLog}

-- The last digits of a number, before a text.
unfoldable pub digits : ℕ → ℕ → String → String
digits zero n text = text
digits (suc fuel) n text =
    let more = digits fuel (n / 10) (slice "0123456789" (n % 10) (suc (n % 10)) ++ text) in
    if ltb n 10 then slice "0123456789" n (suc n) ++ text else more

-- `{}` of a u64, which has at most twenty digits.
unfoldable pub decimal : ℕ → String
unfolding digits
decimal n = digits 20 n ""

-- `Display` of a message type.
unfoldable pub display_type : PbftMessageType → String
display_type PbftMessageType.pre_prepare = "PP"
display_type PbftMessageType.prepare = "Pr"
display_type PbftMessageType.commit = "Co"
display_type PbftMessageType.block_new = "BN"
display_type PbftMessageType.view_change = "VC"
display_type PbftMessageType.unset = "Un"

-- `{:?}` of a message type, by the derived `Debug`.
unfoldable pub debug_type : PbftMessageType → String
debug_type PbftMessageType.pre_prepare = "PrePrepare"
debug_type PbftMessageType.prepare = "Prepare"
debug_type PbftMessageType.commit = "Commit"
debug_type PbftMessageType.block_new = "BlockNew"
debug_type PbftMessageType.view_change = "ViewChange"
debug_type PbftMessageType.unset = "Unset"

-- `[String]::join`.
unfoldable pub join : String → List String → String
join sep [] = ""
join sep (t ∷ []) = t
join sep (t ∷ u ∷ us) = t ++ (sep ++ join sep (u ∷ us))

unfoldable pub display_mode : PbftMode → String
display_mode PbftMode.normal = "N"
display_mode PbftMode.view_changing = "V"

unfoldable pub display_phase : PbftPhase → String
display_phase PbftPhase.pre_preparing = "PP"
display_phase PbftPhase.preparing = "Pr"
display_phase PbftPhase.checking = "Ch"
display_phase PbftPhase.committing = "Co"
display_phase PbftPhase.finished = "Fi"

module _ (hex_encode : Bytes → String) where
  -- `&hex::encode(id)[..6]`, which panics where the text has no sixth byte.
  unfoldable pub short_id : Bytes → Outcome String
  short_id id = or_panic (get? (hex_encode id) 0 6)

  unfoldable pub display_working_block : Option PbftBlock → Outcome String
  unfolding decimal short_id
  display_working_block none = ok "~none~"
  display_working_block (some block) = do
    id ← short_id block.block_id
    ok (decimal block.block_num ++ ("/" ++ id))

  -- `Display` of `PbftState`.
  unfoldable pub display_state : PbftState → Outcome String
  unfolding decimal display_working_block display_mode display_phase
  display_state s = do
    wb ← display_working_block s.working_block
    id ← short_id s.id
    ok (
        "("
        ++ (display_phase s.phase
            ++ (" "
                ++ (display_mode s.mode
                    ++ (" "
                        ++ (decimal s.view
                            ++ (", seq "
                                ++ (decimal s.seq_num
                                    ++ (", wb "
                                        ++ (wb
                                            ++ ("), Node "
                                                ++ ((if is_primary s then "*" else " ")
                                                    ++ id))))))))))))

  -- A row of the log's `Display`.
  unfoldable pub display_info : PbftMessageInfo → String
  unfolding decimal
  display_info i =
      "    { "
      ++ (i.msg_type
          ++ (", view: "
              ++ (decimal i.view
                  ++ (", seq: "
                      ++ (decimal i.seq_num
                          ++ (", signer: " ++ (hex_encode i.signer_id ++ " }")))))))

  -- `Display` of `PbftLog`.
  unfoldable pub display_log : PbftLog → String
  unfolding join display_info
  display_log log = "\nPbftLog:\n" ++ join "\n" (map (λ m. display_info (info m)) log.messages)

  -- `{:?}` of a text that needs no escapes.
  abbrev pub quoted : String → String
  quoted t = "\"" ++ (t ++ "\"")

  -- What follows the description in `Display` of `PbftError`. `protobuf_text` is the text of the
  -- `ProtobufError`, and of an internal error only the fixed part is kept.
  unfoldable pub display_rest : String → PbftError → Outcome String
  unfolding decimal debug_type short_id
  display_rest protobuf_text PbftError.serialization_error = ok protobuf_text
  display_rest protobuf_text (PbftError.wrong_num_messages t exp got) = ok (
      "Wrong number of "
      ++ (debug_type t
          ++ (" messages in this sequence (expected "
              ++ (decimal exp ++ (", got " ++ (decimal got ++ ")"))))))
  display_rest protobuf_text (PbftError.wrong_num_seals exp got) = ok (
      "Wrong number of consensus seals found (expected "
      ++ (decimal exp ++ (", got " ++ (decimal got ++ ")"))))
  display_rest protobuf_text (PbftError.message_mismatch t) =
      ok (debug_type t ++ " message mismatch")
  display_rest protobuf_text (PbftError.view_mismatch exp got) =
      ok ("View mismatch: " ++ (decimal exp ++ (" != " ++ decimal got)))
  display_rest protobuf_text (PbftError.block_mismatch exp got) = do
    a ← short_id exp.block_id
    b ← short_id got.block_id
    ok (quoted a ++ (" != " ++ quoted b))
  display_rest protobuf_text PbftError.node_not_found = ok "Couldn't find node in the network"
  display_rest protobuf_text PbftError.wrong_num_blocks = ok "Incorrect number of blocks"
  display_rest protobuf_text PbftError.timeout = ok "Timed out"
  display_rest protobuf_text (PbftError.internal_error text) = ok text
  display_rest protobuf_text PbftError.no_working_block = ok "There is no working block"
  display_rest protobuf_text PbftError.not_ready_for_message = ok "Not ready"
  display_rest protobuf_text PbftError.not_from_primary =
      ok "Message should be from primary, but was sent by secondary"
  display_rest protobuf_text PbftError.no_block_new =
      ok "Got a PrePrepare without a matching BlockNew"

  -- `Display` of `PbftError`.
  unfoldable pub display_error : String → PbftError → Outcome String
  unfolding display_rest description
  display_error protobuf_text e = do
    rest ← display_rest protobuf_text e
    ok (description e ++ (": " ++ rest))
