-- ===== src/Examples/Nodes.antt =====
-- A node of four peers, and the theorems about states, handlers and the node applied to it.
use sawtooth_pbft.Common.{
  length, Bytes, ℕ, ◌≤◌, ◌≡◌, refl, sym, ap, ◌∙◌, ◌≢◌, inl, inr, Bool, true, some, List, [], ◌∷◌,
  arith,
}
use sawtooth_pbft.MessageType.{PbftMessageType}
use sawtooth_pbft.Error.{ok, out_of_fuel}
use sawtooth_pbft.ParsedMessage.{wrapper_message, get_pbft_message, get_block}
use sawtooth_pbft.Timing.{TimeoutState}
use sawtooth_pbft.State.{PbftNodeRole, PbftPhase, PbftMode, PbftState, max_faulty}
use sawtooth_pbft.Log.{quorum}
use sawtooth_pbft.State.Quorum.{size, both, quorum_gap}
use sawtooth_pbft.Log.Order.{Agrees}
use sawtooth_pbft.Service.{Finalized, Env}
use sawtooth_pbft.Node.{PbftNode}
use sawtooth_pbft.Handlers.Agreement.{NodeIsValid}
use sawtooth_pbft.Node.Peer.{on_peer_message}
use sawtooth_pbft.Node.Fuel.{on_peer_message_ends}
use sawtooth_pbft.Examples.Codecs.{test_codec, test_codec-RoundTrips}
use sawtooth_pbft.Examples.Logs.{test_block, test_message, test_pre_prepare, log_of}
use sawtooth_pbft.Node.Invariant.{on_peer_message-NodeIsValid}

abbrev pub four_peers : List Bytes
four_peers = (1 ∷ []) ∷ (2 ∷ []) ∷ (3 ∷ []) ∷ (4 ∷ []) ∷ []

abbrev five_peers : List Bytes
five_peers = (5 ∷ []) ∷ four_peers

abbrev pub test_state : PbftState
test_state = record {
  id = 2 ∷ [];
  seq_num = 5;
  view = 0;
  phase = PbftPhase.pre_preparing;
  role = PbftNodeRole.secondary;
  mode = PbftMode.normal;
  peer_ids = four_peers;
  f = 1;
  faulty_primary_timeout = record {
    state = TimeoutState.inactive;
    duration = 30000;
    start_time = 0;
  };
  forced_view_change_period = 30;
  working_block = some test_block;
}

abbrev pub test_node : PbftNode
test_node = record {
  state = test_state;
  msg_log = log_of (test_pre_prepare ∷ []);
  calls = [];
  readings = 0;
}

-- A validator that answers every call.
abbrev pub test_env : Env
test_env = record {
  service = record {
    succeeds = λ calls c. true;
    summary = λ calls. some (9 ∷ []);
    finalized = λ calls b. Finalized.published (8 ∷ []);
    settings = λ calls id keys. some (λ key. some "peers");
  };
  codec = test_codec;
  clock = λ n. n;
  json_strings = λ s. some [];
  hex_decode = λ s. some [];
}

on_peer_message_example :
    (on_peer_message test_env 2 (test_message PbftMessageType.commit 0 3) test_node).0 ≢ out_of_fuel
on_peer_message_example =
    on_peer_message_ends test_env test_codec-RoundTrips 0 (test_message PbftMessageType.commit 0 3)
      test_node

pub test_node-NodeIsValid : NodeIsValid test_node
unfolding get_block get_pbft_message
test_node-NodeIsValid = record {
  typed = (inr (test_block, refl), tt);
  distinct = (λ h. h, tt);
  agreed = one_agrees;
}
  where
    one_agrees : Agrees (test_pre_prepare ∷ [])
    one_agrees m k seq view b c (inl e) (inl d) pm pk bm bk =
        same (sym bm ∙ ap get_block (e ∙ sym d) ∙ bk)
      where
        same : ok b ≡ ok c → b ≡ c
        same e = cc
    one_agrees m k seq view b c (inr i) ik pm pk bm bk = absurd i
    one_agrees m k seq view b c im (inr i) pm pk bm bk = absurd i

quorum_gap_example :
    (p : ℕ → Bool) × (q : ℕ → Bool) × (quorum (max_faulty five_peers) ≤ size p (length five_peers))
    × (quorum (max_faulty five_peers) ≤ size q (length five_peers))
    × (size (both p q) (length five_peers) ≤ max_faulty five_peers)
unfolding max_faulty
quorum_gap_example = quorum_gap five_peers (omega arith) (omega arith) (omega arith)

test_commit-carries : get_block (test_message PbftMessageType.commit 0 3) ≡ ok test_block
unfolding get_block get_pbft_message wrapper_message
test_commit-carries = refl

on_peer_message-NodeIsValid_example :
    NodeIsValid (on_peer_message test_env 2 (test_message PbftMessageType.commit 0 3) test_node).1
on_peer_message-NodeIsValid_example =
    on_peer_message-NodeIsValid test_env 2 (test_message PbftMessageType.commit 0 3) test_node
      test_codec-RoundTrips (inr (test_block, test_commit-carries)) test_node-NodeIsValid
