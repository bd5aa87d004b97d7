-- ===== src/Node/Fuel.antt =====
-- Two levels of self-sent messages are enough: a `PrePrepare` makes the node send itself a `Prepare`,
-- and a `ViewChange` makes it send itself one `ViewChange`; neither goes further.
use sawtooth_pbft.Common.{
  if◌then◌else◌, Bool-cases, ◌==◌, nat_eq, string_eq, bytes_eq, add64, sub64, ℕ, suc, ◌≡◌, refl,
  ◌≢◌, inl, inr, false, not, ◌&&◌, arith,
}
use sawtooth_pbft.Protos.{
  PbftBlock, PbftMessage, PbftSeal, block_eq, info_eq, message_eq, seal_eq, view_change_eq,
}
use sawtooth_pbft.MessageType.{
  PbftMessageType, type_eq, is_multicast, from_str, type_name, from_str-type_name,
}
use sawtooth_pbft.Codec.{RoundTrips}
use sawtooth_pbft.ParsedMessage.{ParsedMessage, parsed_eq, info, get_block}
use sawtooth_pbft.State.{PbftMode, phase_eq, is_view_changing, PbftState, check_msg_type}
use sawtooth_pbft.Service.{Env}
use sawtooth_pbft.Node.{PbftNode, M, done, log_message}
use sawtooth_pbft.Handlers.{handle_pre_prepare, handle_view_change, make_msg_info}
use sawtooth_pbft.Node.Broadcast.{
  make_msg_bytes, view_change_message, set_mode, broadcast_message, broadcast_pbft_message,
  send_view_change, propose_view_change,
}
use sawtooth_pbft.Node.Peer.{
  broadcast_pre_prepare, answer_pre_prepare, on_pre_prepare, propose_view_change_if_enough_messages,
  join_view_change, on_view_change, dispatch, on_peer_body, on_peer_message,
}
use sawtooth_pbft.Node.Ends.{
  Returns, Ends, after-Ends, >>=-Ends, get_block-Returns, log_has-Returns, log_message-Ends,
  handle_view_change-Ends, handle_pre_prepare-Ends,
}
use sawtooth_pbft.Log.{entry_eq, get_consensus_seal}
use sawtooth_pbft.Node.OwnMessages.{
  own_message, own_view_change, from_bytes_message, from_bytes_view_change,
}
use sawtooth_pbft.Error.{PbftError, Outcome, ok, err, panic, out_of_fuel}
use sawtooth_pbft.Node.Ending.{
  on_prepare-Ends, on_commit-Ends, view_changing-Ends, get_consensus_seal-Returns,
}

module _ (env : Env) (c : RoundTrips env.codec) (send : ParsedMessage → M (Unit {0})) where
  -- A message of a known type, other than a view change, reaches `send` as it was made.
  broadcast_message-Ends :
      (t : PbftMessageType)
      → t ≢ PbftMessageType.view_change
      → ((msg : ParsedMessage) → (info msg).msg_type ≡ type_name t → Ends (send msg))
      → (seq : ℕ) (block : PbftBlock) → Ends (broadcast_pbft_message env send seq t block)
  unfolding broadcast_pbft_message make_msg_bytes broadcast_message make_msg_info info
  broadcast_message-Ends t ne h seq block n =
      let m : PbftMessage = record {
        info = make_msg_info t n.state.view seq n.state.id;
        block = block;
      } in
      let back = c.message_back t m refl in
      elim (Bool-cases (is_multicast t && not (t == check_msg_type n.state))) [
        | inl e ↦ rw e (λ x. cc)
        | inr e ↦
            rw
              (
                e,
                back.1,
                make_msg_bytes,
                broadcast_message,
                from_bytes_message env.codec t m back.0 ne refl back.2,
              )
              (h (own_message m back.0) refl _)
      ]

  -- A `ViewChange` reaches `send` as it was made.
  module _
      (h : (msg : ParsedMessage) (n : PbftNode)
        → (info msg).msg_type ≡ type_name PbftMessageType.view_change
        → n.state.mode ≡ PbftMode.view_changing
        → Returns (send msg n).0) where
    sent :
        (s : PbftState) (seal : PbftSeal) (k : PbftNode)
        → k.state.mode ≡ PbftMode.view_changing
        → Returns (send_view_change env send s seal k).0
    unfolding send_view_change info
    sent s seal k m =
        let v = view_change_message s seal in
        let back = c.view_change_back v refl in
        rw (back.1, broadcast_message, from_bytes_view_change env.codec v back.0 refl back.2 back.3)
          (h (own_view_change v back.0) _ refl m)

  -- `propose_view_change` ends if `send` ends on a `ViewChange` in the mode `view_changing`.
  propose_view_change-Ends :
      ((msg : ParsedMessage) (n : PbftNode)
        → (info msg).msg_type ≡ type_name PbftMessageType.view_change
        → n.state.mode ≡ PbftMode.view_changing
        → Returns (send msg n).0)
      → Ends (propose_view_change env send)
  unfolding propose_view_change
  propose_view_change-Ends h n = elim (Bool-cases (is_view_changing n.state.mode)) [
    | inl e ↦ rw e (λ x. cc)
    | inr e ↦ rw e (
        after-Ends (send_view_change env send n.state)
          (get_consensus_seal (sub64 n.state.seq_num 1) n.msg_log)
          (record n { state = set_mode PbftMode.view_changing n.state })
          (get_consensus_seal-Returns _ _)
          (λ seal _.
            sent h n.state seal (record n { state = set_mode PbftMode.view_changing n.state })
              refl))
  ]

  -- `on_view_change` ends under the same condition.
  on_view_change-Ends :
      ((msg : ParsedMessage) (n : PbftNode)
        → (info msg).msg_type ≡ type_name PbftMessageType.view_change
        → n.state.mode ≡ PbftMode.view_changing
        → Returns (send msg n).0)
      → (msg : ParsedMessage) → Ends (on_view_change env send msg)
  unfolding on_view_change join_view_change propose_view_change_if_enough_messages
  on_view_change-Ends h msg =
      >>=-Ends (log_message msg) (λ _. join_view_change env send msg) (log_message-Ends msg)
        (λ _.
          >>=-Ends (propose_view_change_if_enough_messages env send msg)
            (λ stopped. if stopped then done else handle_view_change env msg)
            (λ n e. ground (
              arith,
              log_has-Returns PbftMessageType.view_change msg false (add64 n.state.f 1) n.msg_log,
              propose_view_change-Ends h n,
            ))
            (λ stopped n e. ground (arith, handle_view_change-Ends env msg n)))

  on_pre_prepare-Ends :
      ((msg : ParsedMessage)
        → (info msg).msg_type ≡ type_name PbftMessageType.prepare
        → Ends (send msg))
      → (msg : ParsedMessage) → Ends (on_pre_prepare env send msg)
  unfolding on_pre_prepare broadcast_pre_prepare
  on_pre_prepare-Ends h msg n =
      answered (handle_pre_prepare env msg n).0 (handle_pre_prepare env msg n).1
        (handle_pre_prepare-Ends env msg n)
    where
      answered :
          (r : Outcome (Unit {0})) (k : PbftNode)
          → Returns r
          → Returns (answer_pre_prepare env send msg r k).0
      answered (ok _) k e =
          after-Ends (broadcast_pbft_message env send (info msg).seq_num PbftMessageType.prepare)
            (get_block msg) k (get_block-Returns msg)
            (λ block _.
              broadcast_message-Ends PbftMessageType.prepare (λ x. cc) h (info msg).seq_num block k)
      answered (err PbftError.no_block_new) k e = λ x. cc
      answered (err x) k e = λ y. cc
      answered panic k e = λ x. cc
      answered out_of_fuel k e = e

  on_peer_body-Ends :
      ((msg : ParsedMessage)
        → (info msg).msg_type ≡ type_name PbftMessageType.prepare
        → Ends (send msg))
      → ((msg : ParsedMessage) (n : PbftNode)
          → (info msg).msg_type ≡ type_name PbftMessageType.view_change
          → n.state.mode ≡ PbftMode.view_changing
          → Returns (send msg n).0)
      → (msg : ParsedMessage) → Ends (on_peer_body env send msg)
  unfolding on_peer_body dispatch
  on_peer_body-Ends h k msg = go (from_str (info msg).msg_type)
    where
      go : (t : PbftMessageType) → Ends (dispatch env send t msg)
      go PbftMessageType.pre_prepare = on_pre_prepare-Ends h msg
      go PbftMessageType.prepare = on_prepare-Ends env msg
      go PbftMessageType.commit = on_commit-Ends env msg
      go PbftMessageType.view_change = on_view_change-Ends k msg
      go PbftMessageType.block_new = λ n e. cc
      go PbftMessageType.unset = λ n e. cc

module _ (env : Env) (c : RoundTrips env.codec) (fuel : ℕ) where
  own_prepare-Ends :
      (msg : ParsedMessage)
      → (info msg).msg_type ≡ type_name PbftMessageType.prepare
      → Ends (on_peer_message env (suc fuel) msg)
  unfolding on_peer_message on_peer_body dispatch
  own_prepare-Ends msg e n =
      rw (e, from_str-type_name PbftMessageType.prepare, dispatch) (on_prepare-Ends env msg n)

  own_view_change-Ends :
      (msg : ParsedMessage) (n : PbftNode)
      → (info msg).msg_type ≡ type_name PbftMessageType.view_change
      → n.state.mode ≡ PbftMode.view_changing
      → Returns (on_peer_message env (suc fuel) msg n).0
  unfolding on_peer_message on_peer_body dispatch
  own_view_change-Ends msg n e m =
      rw (e, from_str-type_name PbftMessageType.view_change, dispatch)
        (view_changing-Ends env (on_peer_message env fuel) msg n m)

  -- Where what protobuf writes is read back, a bound of two nested messages is enough for any message
  -- and any node: `on_peer_message` never runs out of fuel.
  pub on_peer_message_ends :
      (msg : ParsedMessage) (n : PbftNode)
      → (on_peer_message env (suc (suc fuel)) msg n).0 ≢ out_of_fuel
  unfolding on_peer_message
  on_peer_message_ends msg =
      on_peer_body-Ends env c (on_peer_message env (suc fuel)) own_prepare-Ends own_view_change-Ends
        msg
