-- ===== src/Node/Invariant.antt =====
-- `on_peer_message` keeps the log valid.
use sawtooth_pbft.Common.{
  Bool-cases, ◌==◌, nat_eq, string_eq, Bytes, bytes_eq, ℕ, zero, suc, ◌≡◌, refl, ◌≢◌, inl, inr, not,
  ◌&&◌,
}
use sawtooth_pbft.Protos.{
  PbftBlock, PbftMessage, PbftSeal, PbftViewChange, block_eq, info_eq, message_eq, seal_eq,
  view_change_eq,
}
use sawtooth_pbft.MessageType.{PbftMessageType, type_eq, is_multicast}
use sawtooth_pbft.Error.{ok, out_of_fuel}
use sawtooth_pbft.Codec.{RoundTrips}
use sawtooth_pbft.ParsedMessage.{
  ParsedMessage, parsed_eq, info, wrapper_message, get_pbft_message, get_block,
}
use sawtooth_pbft.State.{phase_eq, PbftState, check_msg_type}
use sawtooth_pbft.Log.{entry_eq}
use sawtooth_pbft.Log.Queries.{IsWellTyped}
use sawtooth_pbft.Service.{Env}
use sawtooth_pbft.Node.{PbftNode, M}
use sawtooth_pbft.Handlers.{make_msg_info}
use sawtooth_pbft.Handlers.Agreement.{LogIsValid, NodeIsValid}
use sawtooth_pbft.Handlers.PrePrepare.{insert_other-LogIsValid, handle_pre_prepare-LogIsValid}
use sawtooth_pbft.Node.Broadcast.{
  make_msg_bytes, view_change_message, broadcast_message, broadcast_pbft_message, send_view_change,
}
use sawtooth_pbft.Node.Peer.{on_peer_message}
use sawtooth_pbft.Node.OwnMessages.{
  own_message, own_view_change, from_bytes_message, from_bytes_view_change,
}
use sawtooth_pbft.Node.Preserves.{LogKeeps, lift-LogKeeps, log_message-LogKeeps}
use sawtooth_pbft.Node.Handling.{Handling, on_peer_body-LogKeeps}

-- A handler that keeps the log valid for every well-typed message.
abbrev SafeSend : (ParsedMessage → M (Unit {0})) → Type 0
SafeSend send = (msg : ParsedMessage) → IsWellTyped msg → LogKeeps LogIsValid (send msg)

own_message-HasBlock : (m : PbftMessage) (b : Bytes) → get_block (own_message m b) ≡ ok m.block
unfolding get_block get_pbft_message wrapper_message
own_message-HasBlock m b = refl

own_view_change_name :
    (v : PbftViewChange) (b : Bytes) → (info (own_view_change v b)).msg_type ≡ v.info.msg_type
unfolding info
own_view_change_name v b = refl

module _ (env : Env) (c : RoundTrips env.codec) (send : ParsedMessage → M (Unit {0}))
    (safe : SafeSend send) where
  broadcast_pbft_message-Safe :
      (seq : ℕ) (t : PbftMessageType) (block : PbftBlock)
      → t ≢ PbftMessageType.view_change
      → LogKeeps LogIsValid (broadcast_pbft_message env send seq t block)
  unfolding broadcast_pbft_message make_msg_bytes broadcast_message make_msg_info
  broadcast_pbft_message-Safe seq t block ne = record {
    at = λ n v.
        let m : PbftMessage = record {
          info = make_msg_info t n.state.view seq n.state.id;
          block = block;
        } in
        let back = c.message_back t m refl in
        elim (Bool-cases (is_multicast t && not (t == check_msg_type n.state))) [
          | inl e ↦ rw e v
          | inr e ↦
              rw
                (
                  e,
                  back.1,
                  make_msg_bytes,
                  broadcast_message,
                  from_bytes_message env.codec t m back.0 ne refl back.2,
                )
                ((safe (own_message m back.0) (inr (block, own_message-HasBlock m back.0))).at _ v)
        ];
  }

  send_view_change-Safe :
      (s : PbftState) (seal : PbftSeal) → LogKeeps LogIsValid (send_view_change env send s seal)
  unfolding send_view_change view_change_message make_msg_info
  send_view_change-Safe s seal = record {
    at = λ n p.
        let v = view_change_message s seal in
        let back = c.view_change_back v refl in
        rw (back.1, broadcast_message, from_bytes_view_change env.codec v back.0 refl back.2 back.3)
          ((safe (own_view_change v back.0) (inl (own_view_change_name v back.0))).at _ p);
  }

  on_peer_message-Handling : Handling LogIsValid IsWellTyped env send
  on_peer_message-Handling = record {
    broadcasts = broadcast_pbft_message-Safe;
    sends_view_change = send_view_change-Safe;
    logs = λ t msg ne e w.
        log_message-LogKeeps msg (λ ms v. insert_other-LogIsValid t msg ms ne e w v);
    pre_prepares = λ msg e w. handle_pre_prepare-LogIsValid env msg w;
  }

on_peer_message-SafeSend :
    (env : Env) (c : RoundTrips env.codec) (fuel : ℕ) → SafeSend (on_peer_message env fuel)
unfolding on_peer_message
on_peer_message-SafeSend env c zero msg w = lift-LogKeeps out_of_fuel
on_peer_message-SafeSend env c (suc fuel) msg w =
    on_peer_body-LogKeeps env (on_peer_message env fuel)
      (on_peer_message-Handling env c (on_peer_message env fuel)
        (on_peer_message-SafeSend env c fuel))
      msg w

-- Where what protobuf writes is read back, `on_peer_message` keeps the log valid for any message in
-- which only the type `ViewChange` wraps a view change, with all the messages that the node then sends
-- to itself and whatever the answer is: no message is logged twice, and never do two logged
-- `PrePrepare` messages of one view and sequence number carry different blocks.
pub on_peer_message-NodeIsValid :
    (env : Env) (fuel : ℕ) (msg : ParsedMessage) (n : PbftNode)
    → RoundTrips env.codec
    → IsWellTyped msg
    → NodeIsValid n
    → NodeIsValid (on_peer_message env fuel msg n).1
on_peer_message-NodeIsValid env fuel msg n c w = (on_peer_message-SafeSend env c fuel msg w).at n
