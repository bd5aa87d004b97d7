-- ===== src/Engine/Kept.antt =====
-- The agreement of the log from the start of the engine on.
use sawtooth_pbft.Common.{All, ℕ, ◌≡◌, true, List, [], ◌∷◌}
use sawtooth_pbft.ParsedMessage.{ParsedMessage}
use sawtooth_pbft.Config.{PbftConfig}
use sawtooth_pbft.State.{PbftState}
use sawtooth_pbft.Service.{Env}
use sawtooth_pbft.Node.{M, pure}
use sawtooth_pbft.Node.Peer.{on_peer_message}
use sawtooth_pbft.Node.Preserves.{LogKeeps, pure-LogKeeps, >>=-LogKeeps, if-LogKeeps}
use sawtooth_pbft.Handlers.Agreed.{LogAgrees, LogAgrees-nil}
use sawtooth_pbft.Node.Agreed.{on_peer_message-LogKeeps}
use sawtooth_pbft.Storage.{Serde, Files}
use sawtooth_pbft.Engine.{Update, Tickers}
use sawtooth_pbft.Engine.Agreement.{IsAdmitted, engine_round-LogKeeps}
use sawtooth_pbft.Engine.Start.{StartTimes, event_loop}
use sawtooth_pbft.Engine.Loop.{node_loop}
use sawtooth_pbft.Engine.InMemory.{ended, event_loop-memory}
use sawtooth_pbft.Engine.Launched.{first_run}

node_loop-LogKeeps :
    (env : Env) (send : ParsedMessage → M (Unit {0})) (us : List Update) (t : Tickers)
    → ((msg : ParsedMessage) → LogKeeps LogAgrees (send msg))
    → All (IsAdmitted env) us
    → LogKeeps LogAgrees (node_loop env send us t)
unfolding node_loop
node_loop-LogKeeps env send [] t safe a = pure-LogKeeps (true, t)
node_loop-LogKeeps env send (u ∷ us) t safe a =
    >>=-LogKeeps (engine_round-LogKeeps env send safe u t a.0) (λ r.
      if-LogKeeps r.0 (node_loop env send us r.1) (pure r)
        (node_loop-LogKeeps env send us r.1 safe a.1) (pure-LogKeeps r))

-- The event loop from `first_run`, whatever the configuration, the state and the updates, ends
-- as the rounds of the engine on the node do, and at that point, also after an error or a panic, the
-- log agrees: no message stands in it twice, and no two logged `PrePrepare` messages of one view and
-- sequence number carry different blocks. The one condition is that no vote in the seal of a new block
-- reads as a `PrePrepare` message.
pub launched_loop-LogAgrees :
    {D : Type 0} (files : Files D) (serde : Serde PbftState) (env : Env) (fuel : ℕ)
    (times : StartTimes) (config : PbftConfig) (s : PbftState) (us : List Update) (d : D)
    → All (IsAdmitted env) us
    → (event_loop files serde env (on_peer_message env fuel) us (first_run env times d config s).1
        ≡ ended d (
            node_loop env
              (on_peer_message env fuel)
              us
              (first_run env times d config s).1.tickers
              (first_run env times d config s).1.node))
      × LogAgrees
          (node_loop env
            (on_peer_message env fuel)
            us
            (first_run env times d config s).1.tickers
            (first_run env times d config s).1.node).1.msg_log.messages
launched_loop-LogAgrees files serde env fuel times config s us d a = (
  event_loop-memory files serde env (on_peer_message env fuel) us _ _ d,
  (node_loop-LogKeeps env (on_peer_message env fuel) us _ (on_peer_message-LogKeeps env fuel) a).at
      (first_run env times d config s).1.node LogAgrees-nil,
)
