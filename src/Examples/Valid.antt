-- ===== src/Examples/Valid.antt =====
-- A round of the loop at the notice that the working block is valid, on concrete data.
use sawtooth_pbft.Common.{bytes_beq, ◌≡◌, refl, some, [], ◌∷◌}
use sawtooth_pbft.State.{PbftPhase}
use sawtooth_pbft.Service.{Env}
use sawtooth_pbft.Node.{PbftNode}
use sawtooth_pbft.Node.Peer.{on_peer_message}
use sawtooth_pbft.Node.Voting.{commit_votes}
use sawtooth_pbft.Engine.{Update, handle_update, reported, Tickers, run_ticker, engine_round}
use sawtooth_pbft.Engine.Votes.{VotesOnce, engine_round-commit_votes}
use sawtooth_pbft.Examples.Logs.{test_block}
use sawtooth_pbft.Examples.Nodes.{test_state, test_node, test_env}
use sawtooth_pbft.MessageType.{type_beq, is_multicast, type_name}
use sawtooth_pbft.Node.Broadcast.{broadcast_pbft_message}
use sawtooth_pbft.Node.Blocks.{on_block_valid}
use sawtooth_pbft.Examples.Codecs.{split, fields_message, fields_view_change}

abbrev checking_node : PbftNode
checking_node = record test_node { state = record test_state { phase = PbftPhase.checking } }

-- Tickers that are not due.
abbrev idle_tickers : Tickers
idle_tickers = record {
  working = record { last = 0; timeout = 100 };
  backlog = record { last = 0; timeout = 100 };
}

abbrev voting_env : Env
voting_env = record test_env {
  codec = record (test_env.codec) { write_message = λ m. some (1 ∷ []) };
}

-- The notice does make the node vote.
checking_node-votes :
    commit_votes
      (engine_round voting_env
        (on_peer_message voting_env 2)
        (Update.block_valid test_block.block_id)
        idle_tickers
        checking_node).1.calls
    ≡ (1 ∷ []) ∷ []
unfolding commit_votes engine_round reported handle_update on_block_valid bytes_beq
    broadcast_pbft_message is_multicast type_beq fields_message split fields_view_change run_ticker
    type_name
checking_node-votes = refl

engine_round-commit_votes_example :
    VotesOnce voting_env
      (Update.block_valid test_block.block_id)
      checking_node
      (engine_round voting_env
        (on_peer_message voting_env 2)
        (Update.block_valid test_block.block_id)
        idle_tickers
        checking_node).1
engine_round-commit_votes_example =
    engine_round-commit_votes voting_env 2 (Update.block_valid test_block.block_id) idle_tickers
      checking_node
