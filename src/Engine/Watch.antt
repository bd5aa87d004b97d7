-- ===== src/Engine/Watch.antt =====
-- What the working ticker does on a secondary: it watches the primary.
use sawtooth_pbft.Common.{
  Bytes, add64, sub64, suc, ◌≡◌, refl, ap, ◌∙◌, ◌⊎◌, inl, inr, Bool, true, false, some,
}
use sawtooth_pbft.Error.{ok}
use sawtooth_pbft.ParsedMessage.{ParsedMessage}
use sawtooth_pbft.Timing.{check_expired}
use sawtooth_pbft.State.{PbftMode, is_primary}
use sawtooth_pbft.Service.{Env}
use sawtooth_pbft.Node.{PbftNode, M, ◌>>=◌, when}
use sawtooth_pbft.Node.Keeps.{after}
use sawtooth_pbft.Node.Broadcast.{view_change_message, broadcast_message, propose_view_change}
use sawtooth_pbft.Node.Publish.{try_publish, check_faulty_primary_timeout_expired}
use sawtooth_pbft.Engine.{reported, work}
use sawtooth_pbft.Protos.{PbftSeal}
use sawtooth_pbft.MessageType.{PbftMessageType, type_name}
use sawtooth_pbft.Log.{get_consensus_seal}
use sawtooth_pbft.Node.Proposals.{stuck, propose_view_change-sealed}
use sawtooth_pbft.Handlers.{make_msg_info}

-- The node after one look at its timeout.
abbrev pub looked : Env → PbftNode → PbftNode
looked env n = record n {
  state = record (n.state) {
    faulty_primary_timeout =
        (check_expired (env.clock n.readings) n.state.faulty_primary_timeout).1;
  };
  readings = suc n.readings;
}

module _ (env : Env) (send : ParsedMessage → M (Unit {0})) (n : PbftNode)
    (secondary : is_primary n.state ≡ false) where
  abbrev propose_if : Bool → M (Unit {0})
  propose_if expired = when expired (reported tt (propose_view_change env send))

  idle : try_publish env n ≡ (ok tt, n)
  unfolding try_publish
  idle = rw secondary refl

  publishes_nothing : reported tt (try_publish env) n ≡ (ok tt, n)
  unfolding reported
  publishes_nothing = ap (λ p. reported tt (λ _. p) n) idle

  check_faulty_primary_timeout_expired-looks :
      check_faulty_primary_timeout_expired env n
      ≡ (ok (check_expired (env.clock n.readings) n.state.faulty_primary_timeout).0, looked env n)
  unfolding check_faulty_primary_timeout_expired
  check_faulty_primary_timeout_expired-looks = refl

  work-looks :
      work env send n
      ≡ propose_if
          (check_expired (env.clock n.readings) n.state.faulty_primary_timeout).0
          (looked env n)
  unfolding work
  work-looks =
      ap (after (λ _. check_faulty_primary_timeout_expired env >>= λ expired. propose_if expired))
        publishes_nothing
      ∙ ap (after propose_if) check_faulty_primary_timeout_expired-looks

  -- On a secondary that is changing its view, or whose timeout for the primary has not run out, the
  -- working ticker does nothing but look at the timeout, when it runs once.
  pub work-waits :
      ((check_expired (env.clock n.readings) n.state.faulty_primary_timeout).0 ≡ false)
        ⊎ (n.state.mode ≡ PbftMode.view_changing)
      → work env send n ≡ (ok tt, looked env n)
  unfolding propose_view_change reported
  work-waits (inl e) = work-looks ∙ ap (λ b. propose_if b (looked env n)) e
  work-waits (inr e) =
      work-looks ∙ waits (check_expired (env.clock n.readings) n.state.faulty_primary_timeout).0
    where
      waits : (b : Bool) → propose_if b (looked env n) ≡ (ok tt, looked env n)
      waits true = rw e refl
      waits false = refl

  -- Once the timeout for the primary has run out, a secondary in normal mode enters the mode
  -- ViewChanging and sends a `ViewChange` message for the next view, with the one seal of the previous
  -- sequence number; what becomes of the message is only reported.
  pub work-proposes :
      (seal : PbftSeal) (bytes : Bytes)
      → (check_expired (env.clock n.readings) n.state.faulty_primary_timeout).0 ≡ true
      → n.state.mode ≡ PbftMode.normal
      → get_consensus_seal (sub64 n.state.seq_num 1) n.msg_log ≡ ok seal
      → env.codec.write_view_change (record {
        info = record {
          msg_type = type_name PbftMessageType.view_change;
          view = add64 n.state.view 1;
          seq_num = sub64 n.state.seq_num 1;
          signer_id = n.state.id;
        };
        seal = seal;
      })
        ≡ some bytes
      → work env send n
        ≡ reported tt
            (broadcast_message env send PbftMessageType.view_change bytes)
            (stuck (looked env n))
  unfolding reported view_change_message make_msg_info
  work-proposes seal bytes expired normal found writes =
      work-looks
      ∙ ap (λ b. propose_if b (looked env n)) expired
      ∙ ap (λ p. reported tt (λ _. p) (looked env n))
          (propose_view_change-sealed env send (looked env n) seal bytes normal found writes)
