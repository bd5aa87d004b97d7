-- ===== src/Node.antt =====
-- What the methods of `PbftNode` (src/node.rs) and the handlers (src/handlers.rs) run on: the node's
-- state and log, the calls made to the validator, and the number of clock readings. A method that
-- fails keeps what it has written.
pub mod Broadcast
pub mod Peer
pub mod Votes
pub mod Seal
pub mod Blocks
pub mod NewBlock
pub mod Publish
pub mod Payloads
pub mod Published
pub mod BuiltSeals
pub mod ViewChanges
pub mod Finishes
pub mod Forgets
pub mod Replacing
pub mod Replaced
pub mod CatchUp
pub mod CaughtUp
pub mod SealMessages
pub mod Voting
pub mod Voted
pub mod Unvoted
pub mod Casts
pub mod Frame
pub mod Framed
pub mod Keeps
pub mod OwnMessages
pub mod Ends
pub mod Ending
pub mod Fuel
pub mod Commits
pub mod Prepares
pub mod Proposals
pub mod Preserves
pub mod Reads
pub mod Unlogged
pub mod Handling
pub mod Invariant
pub mod Agreed
pub mod Updates
pub mod Received
pub mod Progress
pub mod Successes
pub mod Sealing
pub mod Sealed
use sawtooth_pbft.Common.{if◌then◌else◌, ℕ, suc, Bool, List, ◌∷◌}
use sawtooth_pbft.Error.{PbftError, Outcome, ok, err, panic, out_of_fuel}
use sawtooth_pbft.State.{PbftPhase, PbftState, switch_phase}
use sawtooth_pbft.Log.{PbftLog, add_message}
use sawtooth_pbft.ParsedMessage.{ParsedMessage}
use sawtooth_pbft.Service.{Call, Env}

pub record PbftNode : Type 0 where
  pub state : PbftState
  pub msg_log : PbftLog
  pub calls : List Call
  pub readings : ℕ

abbrev pub M : Type 0 → Type 0
M A = PbftNode → Outcome A × PbftNode

infixl 5 ◌>>=◌ ◌>>◌
abbrev pub ◌>>=◌ : {A B : Type 0} → M A → (A → M B) → M B
◌>>=◌ m f n =
    let (r, n') = m n in
    elim r [
      | ok a ↦ f a n'
      | err e ↦ (err e, n')
      | panic ↦ (panic, n')
      | out_of_fuel ↦ (out_of_fuel, n')
    ]

abbrev pub ◌>>◌ : {B : Type 0} → M (Unit {0}) → M B → M B
m >> k = m >>= λ _. k

module _ {A : Type 0} where
  abbrev pub pure : A → M A
  pure a n = (ok a, n)

  abbrev pub fail : PbftError → M A
  fail e n = (err e, n)

  abbrev pub lift : Outcome A → M A
  lift r n = (r, n)

  -- An answer computed from the state, or from the log.
  abbrev pub query_state : (PbftState → Outcome A) → M A
  query_state g n = (g n.state, n)

  abbrev pub query_log : (PbftLog → Outcome A) → M A
  query_log g n = (g n.msg_log, n)

  abbrev pub reads_log : (PbftLog → A) → M A
  reads_log g n = (ok (g n.msg_log), n)

abbrev pub done : M (Unit {0})
done n = (ok tt, n)

abbrev pub get_state : M PbftState
get_state n = (ok n.state, n)

abbrev pub modify_state : (PbftState → PbftState) → M (Unit {0})
modify_state g n = (ok tt, record n { state = g n.state })

abbrev pub modify_log : (PbftLog → PbftLog) → M (Unit {0})
modify_log g n = (ok tt, record n { msg_log = g n.msg_log })

abbrev pub when : Bool → M (Unit {0}) → M (Unit {0})
when c m = if c then m else done

module _ (env : Env) where
  -- One call of the validator; whether it succeeds.
  abbrev pub request : Call → M Bool
  request c n = (ok (env.service.succeeds n.calls c), record n { calls = c ∷ n.calls })

  -- `Instant::now`.
  abbrev pub now : M ℕ
  now n = (ok (env.clock n.readings), record n { readings = suc n.readings })

-- `msg_log.add_message(msg, state)?`.
unfoldable pub log_message : ParsedMessage → M (Unit {0})
log_message msg n = elim (add_message msg n.state.view n.msg_log) [
  | ok log ↦ (ok tt, record n { msg_log = log })
  | err e ↦ (err e, n)
  | panic ↦ (panic, n)
  | out_of_fuel ↦ (out_of_fuel, n)
]

-- `state.switch_phase`, its answer dropped.
unfoldable pub switch_to : PbftPhase → PbftState → PbftState
unfolding switch_phase
switch_to p s = (switch_phase p s).0
