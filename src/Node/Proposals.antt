-- ===== src/Node/Proposals.antt =====
-- What becomes of a view change that is proposed without a seal.
use sawtooth_pbft.Common.{Bytes, sub64, ◌≡◌, refl, sym, ap, ◌∙◌, subst, some}
use sawtooth_pbft.Error.{PbftError, ok, err}
use sawtooth_pbft.ParsedMessage.{ParsedMessage}
use sawtooth_pbft.State.{PbftMode}
use sawtooth_pbft.Log.{get_consensus_seal}
use sawtooth_pbft.Service.{Env}
use sawtooth_pbft.Node.{PbftNode, M}
use sawtooth_pbft.Node.Broadcast.{
  view_change_message, set_mode, broadcast_message, send_view_change, propose_view_change,
}
use sawtooth_pbft.Node.Keeps.{after}
use sawtooth_pbft.Protos.{PbftSeal}
use sawtooth_pbft.MessageType.{PbftMessageType}

-- The node, in the mode `view_changing`.
abbrev pub stuck : PbftNode → PbftNode
stuck n = record n { state = set_mode PbftMode.view_changing n.state }

-- Where the log has not exactly one seal of the previous sequence number, a node in normal mode that
-- proposes a view change fails, sends nothing and keeps nothing but the mode `view_changing`; after
-- that, proposing one again answers that all is well, and does nothing.
pub propose_view_change-unsealed :
    (env : Env) (send : ParsedMessage → M (Unit {0})) (n : PbftNode) (x : PbftError)
    → n.state.mode ≡ PbftMode.normal
    → get_consensus_seal (sub64 n.state.seq_num 1) n.msg_log ≡ err x
    → (propose_view_change env send n ≡ (err x, stuck n))
      × (propose_view_change env send (stuck n) ≡ (ok tt, stuck n))
unfolding propose_view_change send_view_change
propose_view_change-unsealed env send n x normal e = (rw normal unsealed, refl)
  where
    unsealed :
        after
          (send_view_change env send n.state)
          (get_consensus_seal (sub64 n.state.seq_num 1) n.msg_log, stuck n)
        ≡ (err x, stuck n)
    unsealed =
        subst (λ r. after (send_view_change env send n.state) (r, stuck n) ≡ (err x, stuck n))
          (sym e) refl

-- With that seal the message for the next view is sent.
pub propose_view_change-sealed :
    (env : Env) (send : ParsedMessage → M (Unit {0})) (n : PbftNode) (seal : PbftSeal)
    (bytes : Bytes)
    → n.state.mode ≡ PbftMode.normal
    → get_consensus_seal (sub64 n.state.seq_num 1) n.msg_log ≡ ok seal
    → env.codec.write_view_change (view_change_message n.state seal) ≡ some bytes
    → propose_view_change env send n
      ≡ broadcast_message env send PbftMessageType.view_change bytes (stuck n)
unfolding propose_view_change send_view_change broadcast_message
propose_view_change-sealed env send n seal bytes normal found writes =
    rw normal (ap (λ r. after (send_view_change env send n.state) (r, stuck n)) found ∙ sends)
  where
    sends :
        send_view_change env send n.state seal (stuck n)
        ≡ broadcast_message env send PbftMessageType.view_change bytes (stuck n)
    sends = rw (send_view_change, writes) refl
