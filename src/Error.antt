-- ===== src/Error.antt =====
-- src/error.rs. `serialization_error` has no payload: the text of a `ProtobufError` is protobuf's.
-- An `internal_error` keeps the fixed part of its description.
use sawtooth_pbft.Common.{ℕ, String}
use sawtooth_pbft.Protos.{PbftBlock}
use sawtooth_pbft.MessageType.{PbftMessageType}

pub data PbftError : Type 0 where
  serialization_error : PbftError
  wrong_num_messages : PbftMessageType → ℕ → ℕ → PbftError
  wrong_num_seals : ℕ → ℕ → PbftError
  block_mismatch : PbftBlock → PbftBlock → PbftError
  message_mismatch : PbftMessageType → PbftError
  view_mismatch : ℕ → ℕ → PbftError
  internal_error : String → PbftError
  node_not_found : PbftError
  wrong_num_blocks : PbftError
  timeout : PbftError
  no_working_block : PbftError
  not_ready_for_message : PbftError
  not_from_primary : PbftError
  no_block_new : PbftError

-- `Error::description`.
unfoldable pub description : PbftError → String
description PbftError.serialization_error = "SerializationError"
description (PbftError.wrong_num_messages _ _ _) = "WrongNumMessages"
description (PbftError.wrong_num_seals _ _) = "WrongNumSeals"
description (PbftError.block_mismatch _ _) = "BlockMismatch"
description (PbftError.message_mismatch _) = "MessageMismatch"
description (PbftError.view_mismatch _ _) = "ViewMismatch"
description (PbftError.internal_error _) = "InternalError"
description PbftError.node_not_found = "NodeNotFound"
description PbftError.wrong_num_blocks = "WrongNumBlocks"
description PbftError.timeout = "Timeout"
description PbftError.no_working_block = "NoWorkingBlock"
description PbftError.not_ready_for_message = "NotReadyForMessage"
description PbftError.not_from_primary = "NotFromPrimary"
description PbftError.no_block_new = "NoBlockNew"

-- How a call ends: `panic` is a Rust panic. `out_of_fuel` ends a call of the model whose bound on
-- nested self-sent messages was too small.
pub data Outcome (A : Type 0) : Type 0 where
  ok : A → Outcome A
  err : PbftError → Outcome A
  panic : Outcome A
  out_of_fuel : Outcome A
