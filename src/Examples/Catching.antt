-- ===== src/Examples/Catching.antt =====
-- A node at the sequence number 5 that is given the block after its working block, with a seal of one
-- vote.
use sawtooth_pbft.Common.{add64, ◌≡◌, refl, false, some, [], ◌∷◌, arith}
use sawtooth_pbft.Protos.{PbftMessage, PbftSeal, Block}
use sawtooth_pbft.MessageType.{PbftMessageType, from_str, type_name}
use sawtooth_pbft.Error.{PbftError, ok, err}
use sawtooth_pbft.ParsedMessage.{
  PbftMessageWrapper, ParsedMessage, wrapper_info, info, wrapper_message, get_pbft_message,
  get_block, from_pbft_message,
}
use sawtooth_pbft.Service.{Env}
use sawtooth_pbft.Node.{PbftNode}
use sawtooth_pbft.Node.Votes.{seal_messages}
use sawtooth_pbft.Node.Blocks.{on_block_commit}
use sawtooth_pbft.Node.NewBlock.{catchup}
use sawtooth_pbft.Node.Progress.{StartsAt}
use sawtooth_pbft.Node.CatchUp.{handed_over}
use sawtooth_pbft.Node.CaughtUp.{catchup-next_block, catchup-older_view}
use sawtooth_pbft.Examples.Logs.{test_block, test_info}
use sawtooth_pbft.Examples.Nodes.{test_state, test_node, test_env}

-- What every message reads as: a vote to commit the working block.
abbrev voted : PbftMessage
voted = record { info = test_info PbftMessageType.commit 0 3; block = test_block }

abbrev one_vote : PbftSeal
one_vote = record {
  previous_id = test_block.block_id;
  summary = 9 ∷ [];
  previous_commit_votes =
      record { header_bytes = []; header_signature = []; message_bytes = 1 ∷ [] } ∷ [];
}

abbrev catching_env : Env
catching_env = record test_env {
  codec = record (test_env.codec) {
    parse_message = λ b. some voted;
    write_message = λ m. some (1 ∷ []);
    parse_seal = λ b. some one_vote;
  };
}

abbrev next_announced : Block
next_announced = record {
  block_id = 8 ∷ 8 ∷ 8 ∷ [];
  previous_id = test_block.block_id;
  signer_id = 1 ∷ [];
  block_num = 6;
  payload = 1 ∷ [];
  summary = 9 ∷ [];
}

abbrev read_vote : ParsedMessage
read_vote = record {
  header_bytes = [];
  header_signature = [];
  message = PbftMessageWrapper.message voted;
  message_bytes = 1 ∷ [];
  from_self = false;
}

votes_read : seal_messages catching_env.codec one_vote.previous_commit_votes ≡ ok (read_vote ∷ [])
unfolding seal_messages from_pbft_message
votes_read = refl

catchup-next_block_example :
    (catchup catching_env next_announced test_node
      ≡ on_block_commit catching_env test_block.block_id
          (handed_over read_vote [] test_block test_node))
    × StartsAt (add64 5 1) (catchup catching_env next_announced test_node).1
unfolding get_block get_pbft_message wrapper_message info wrapper_info
catchup-next_block_example =
    catchup-next_block catching_env next_announced test_node test_block one_vote read_vote [] refl
      refl refl refl votes_read test_block refl refl (omega arith) tt refl

-- The same node, a view later.
abbrev later_node : PbftNode
later_node = record test_node { state = record test_state { view = 1 } }

catchup-older_view_example :
    catchup catching_env next_announced later_node
    ≡ (err (PbftError.view_mismatch (info read_vote).view 1), later_node)
unfolding info wrapper_info from_str type_name
catchup-older_view_example =
    catchup-older_view catching_env next_announced later_node test_block one_vote read_vote [] refl
      refl refl refl votes_read (omega arith) (λ e. cc)
