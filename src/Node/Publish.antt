-- ===== src/Node/Publish.antt =====
-- src/node.rs: what the engine calls from time to time, and `PbftNode::new`.
use sawtooth_pbft.Common.{
  leb, if◌then◌else◌, ◌==◌, nat_eq, string_eq, Bytes, bytes_eq, Bool, not, ◌||◌, Option, none, some,
  [], ◌∷◌,
}
use sawtooth_pbft.Error.{PbftError, ok, err}
use sawtooth_pbft.ParsedMessage.{ParsedMessage, parsed_eq}
use sawtooth_pbft.Timing.{check_expired}
use sawtooth_pbft.Config.{PbftConfig}
use sawtooth_pbft.State.{PbftPhase, phase_eq, PbftState, is_primary}
use sawtooth_pbft.Log.{entry_eq, new_log, pop_backlog}
use sawtooth_pbft.Service.{Call, Finalized, Env}
use sawtooth_pbft.Node.{
  PbftNode, M, ◌>>=◌, ◌>>◌, pure, reads_log, done, get_state, modify_state, modify_log, now,
}
use sawtooth_pbft.Node.Seal.{build_seal}
use sawtooth_pbft.Node.Blocks.{restart_timeout}

-- `PbftNode::new`, beside the state; a primary starts a block.
unfoldable pub new_node : Env → PbftConfig → PbftState → PbftNode
new_node env config s = record {
  state = s;
  msg_log = new_log config;
  calls = if is_primary s then Call.initialize_block none ∷ [] else [];
  readings = 0;
}

-- `service.summarize_block()`.
unfoldable pub summarize : Env → M (Option Bytes)
summarize env n =
    (ok (env.service.summary n.calls), record n { calls = Call.summarize_block ∷ n.calls })

-- `service.finalize_block(data)` and what becomes of its answer.
unfoldable pub finalize : Env → Bytes → M (Unit {0})
finalize env payload n =
    let n' = record n { calls = Call.finalize_block payload ∷ n.calls } in
    elim (env.service.finalized n.calls payload) [
      | Finalized.published id ↦ (ok tt, n')
      | Finalized.block_not_ready ↦ (ok tt, n')
      | Finalized.failed ↦ (err (PbftError.internal_error "Couldn't finalize block!"), n')
    ]

-- The payload of the new block: no seal for the first one.
unfoldable pub payload_for : Env → Bytes → M Bytes
unfolding build_seal
payload_for env summary = do
  s ← get_state
  if leb s.seq_num 1 then pure [] else build_seal env summary

-- `try_publish` with a summary.
unfoldable pub publish : Env → Option Bytes → M (Unit {0})
unfolding payload_for finalize
publish env none = done
publish env (some summary) = do payload ← payload_for env summary; finalize env payload

unfoldable pub try_publish : Env → M (Unit {0})
unfolding summarize publish
try_publish env = do
  s ← get_state
  if not (is_primary s) || not (s.phase == PbftPhase.pre_preparing)
      then done
      else do summary ← summarize env; publish env summary

unfoldable pub check_faulty_primary_timeout_expired : Env → M Bool
unfolding check_expired
check_faulty_primary_timeout_expired env = do
  t ← now env
  s ← get_state
  modify_state
      (λ st. record st { faulty_primary_timeout = (check_expired t st.faulty_primary_timeout).1 })
  pure (check_expired t s.faulty_primary_timeout).0

unfoldable pub start_faulty_primary_timeout : Env → M (Unit {0})
unfolding restart_timeout
start_faulty_primary_timeout env = restart_timeout env

-- `retry_backlog`.
unfoldable pub retry : (ParsedMessage → M (Unit {0})) → Option ParsedMessage → M (Unit {0})
retry send none = done
retry send (some msg) = send msg

unfoldable pub retry_backlog : (ParsedMessage → M (Unit {0})) → M (Unit {0})
unfolding retry
retry_backlog send = do
  popped ← reads_log (λ log. (pop_backlog log).0)
  modify_log (λ log. (pop_backlog log).1)
  retry send popped
