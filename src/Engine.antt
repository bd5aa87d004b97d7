-- ===== src/Engine.antt =====
-- src/engine.rs: `handle_update` and one round of the event loop of `start`.
pub mod Watch
pub mod Unwatched
pub mod Votes
pub mod Stalled
pub mod Updates
pub mod Agreement
pub mod Start
pub mod Loop
pub mod InMemory
pub mod Launched
pub mod Kept
pub mod Ending
pub mod Sequence
pub mod Steps
use sawtooth_pbft.Common.{
  if◌then◌else◌, ◌==◌, nat_eq, string_eq, Bytes, bytes_eq, ℕ, Bool, true, false, not,
}
use sawtooth_pbft.Protos.{Block, block_eq, info_eq, message_eq, seal_eq, view_change_eq}
use sawtooth_pbft.Error.{PbftError, ok, err, panic, out_of_fuel}
use sawtooth_pbft.ParsedMessage.{ParsedMessage, parsed_eq, info, PeerMessage, from_peer_message}
use sawtooth_pbft.Timing.{Ticker, tick}
use sawtooth_pbft.Service.{Env}
use sawtooth_pbft.State.{phase_eq}
use sawtooth_pbft.Node.{M, ◌>>=◌, ◌>>◌, pure, fail, lift, when, now}
use sawtooth_pbft.Node.Broadcast.{propose_view_change}
use sawtooth_pbft.Node.Blocks.{on_block_commit, on_block_valid}
use sawtooth_pbft.Node.NewBlock.{on_block_new}
use sawtooth_pbft.Node.Publish.{try_publish, check_faulty_primary_timeout_expired, retry_backlog}
use sawtooth_pbft.MessageType.{type_eq}
use sawtooth_pbft.Log.{entry_eq}
use sawtooth_pbft.Node.Keeps.{after}

-- The SDK's `Update`, and the two errors of `recv_timeout`.
pub data Update : Type 0 where
  block_new : Block → Update
  block_valid : Bytes → Update
  block_invalid : Bytes → Update
  block_commit : Bytes → Update
  peer_message : PeerMessage → Bytes → Update
  peer_connected : Update
  peer_disconnected : Bytes → Update
  shutdown : Update
  timed_out : Update
  disconnected : Update

module _ (env : Env) (send : ParsedMessage → M (Unit {0})) where
  -- The last step for a peer's message: the signer it names has to be its sender.
  unfoldable pub receive : ParsedMessage → Bytes → M Bool
  receive msg sender =
      if not ((info msg).signer_id == sender)
      then fail (PbftError.internal_error "Mismatch between sender ID and signer ID")
      else (send msg >>= λ handled. pure true)

  -- Whether the loop goes on.
  unfoldable pub handle_update : Update → M Bool
  unfolding receive from_peer_message
  handle_update (Update.block_new block) = do on_block_new env send block; pure true
  handle_update (Update.block_valid id) = do on_block_valid env send id; pure true
  handle_update (Update.block_invalid id) = do propose_view_change env send; pure true
  handle_update (Update.block_commit id) = do on_block_commit env id; pure true
  handle_update (Update.peer_message m sender) = do
    msg ← lift (from_peer_message env.codec m false)
    receive msg sender
  handle_update Update.peer_connected = pure true
  handle_update (Update.peer_disconnected id) = pure true
  handle_update Update.shutdown = pure false
  handle_update Update.timed_out = fail PbftError.timeout
  handle_update Update.disconnected = pure false

-- `handle_pbft_result`: an error is only reported. A panic ends the program.
unfoldable pub reported : {A : Type 0} → A → M A → M A
reported default m n =
    let (r, n') = m n in
    elim r [
      | ok a ↦ (ok a, n')
      | err e ↦ (ok default, n')
      | panic ↦ (panic, n')
      | out_of_fuel ↦ (out_of_fuel, n')
    ]

pub record Tickers : Type 0 where
  pub working : Ticker
  pub backlog : Ticker

module _ (env : Env) (send : ParsedMessage → M (Unit {0})) where
  -- The callback of the working ticker.
  unfoldable pub work : M (Unit {0})
  work = do
    reported tt (try_publish env)
    expired ← check_faulty_primary_timeout_expired env
    when expired (reported tt (propose_view_change env send))

  unfoldable pub retry_work : M (Unit {0})
  retry_work = reported tt (retry_backlog send)

  -- The callback, and the time that the ticker keeps after it.
  unfoldable pub run_callback : Ticker → ℕ → M (Unit {0}) → M Ticker
  unfolding tick
  run_callback t before callback = do callback; after ← now env; pure (tick before after t).1

  -- `Ticker::tick` with a callback.
  unfoldable pub run_ticker : Ticker → M (Unit {0}) → M Ticker
  unfolding tick run_callback
  run_ticker t callback = do
    before ← now env
    if (tick before before t).0 then run_callback t before callback else pure t

  -- The two tickers, one after the other.
  unfoldable pub run_tickers : Tickers → M (Bool × Tickers)
  run_tickers t = do
    working ← run_ticker t.working work
    backlog ← run_ticker t.backlog retry_work
    pure (true, record { working = working; backlog = backlog })

  -- One round of the loop, after which it goes on or ends.
  unfoldable pub engine_round : Update → Tickers → M (Bool × Tickers)
  unfolding run_tickers
  engine_round update t = do
    again ← reported true (handle_update env send update)
    if not again then pure (false, t) else run_tickers t
