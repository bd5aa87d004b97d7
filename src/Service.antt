-- ===== src/Service.antt =====
-- The validator, as `sawtooth_sdk::consensus::service::Service` offers it, and the other libraries:
-- parameters of the model. A call's answer may depend on all calls before it, latest first, so any
-- state that the validator keeps is covered. `false` and `none` stand for an `Err`.
use sawtooth_pbft.Common.{Bytes, ℕ, String, Bool, Option, List}
use sawtooth_pbft.Config.{Settings}
use sawtooth_pbft.Codec.{Codec}

pub data Call : Type 0 where
  initialize_block : Option Bytes → Call
  summarize_block : Call
  finalize_block : Bytes → Call
  check_blocks : List Bytes → Call
  commit_block : Bytes → Call
  ignore_block : Bytes → Call
  fail_block : Bytes → Call
  broadcast : String → Bytes → Call
  get_settings : Bytes → List String → Call

-- The answer of `finalize_block`.
pub data Finalized : Type 0 where
  published : Bytes → Finalized
  block_not_ready : Finalized
  failed : Finalized

pub record Service : Type 0 where
  pub succeeds : List Call → Call → Bool
  pub summary : List Call → Option Bytes
  pub finalized : List Call → Bytes → Finalized
  pub settings : List Call → Bytes → List String → Option Settings

-- `clock n` is the n-th reading of `Instant::now`, in milliseconds. `json_strings` reads a JSON array
-- of strings, `hex_decode` a hexadecimal text.
pub record Env : Type 0 where
  pub service : Service
  pub codec : Codec
  pub clock : ℕ → ℕ
  pub json_strings : String → Option (List String)
  pub hex_decode : String → Option Bytes
