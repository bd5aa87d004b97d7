-- ===== src/Examples/Quorums.antt =====
-- Two logs of four peers, one of which is faulty, and the theorems about votes and about blocks at one
-- height applied to concrete data.
use sawtooth_pbft.Common.{
  All, In, ◌==◌, nat_eq, string_eq, Bytes, bytes_beq, bytes_eq, ◌≡◌, refl, sym, ◌∙◌, subst, ◌≢◌,
  ◌⊎◌, inl, inr, Bool, true, none, some, List, [], ◌∷◌, arith,
}
use sawtooth_pbft.Protos.{
  PbftBlock, PbftMessageInfo, Block, block_beq, block_eq, info_eq, message_eq, seal_eq,
  view_change_eq,
}
use sawtooth_pbft.MessageType.{PbftMessageType, type_eq, type_name}
use sawtooth_pbft.ParsedMessage.{
  ParsedMessage, parsed_eq, wrapper_info, info, wrapper_message, get_pbft_message, get_block,
}
use sawtooth_pbft.State.{PbftPhase, phase_eq, max_faulty}
use sawtooth_pbft.Log.{
  entry_eq, PbftLog, is_type_seq_view, get_messages_of_type_seq_view, get_one_msg, filter_block,
  log_has_required_msgs, check_prepared, check_committable,
}
use sawtooth_pbft.Log.Voters.{signer, votes_for, IsOneVoteEach}
use sawtooth_pbft.Examples.Logs.{
  test_block, test_info, test_message, test_pre_prepare, test_messages, log_of, test_messages_carry,
  test_typed, carried, swapped_messages,
}
use sawtooth_pbft.Examples.Nodes.{four_peers, test_state, test_node, test_env}
use sawtooth_pbft.Error.{PbftError, ok, err}
use sawtooth_pbft.Log.Sets.{IsDistinct}
use sawtooth_pbft.Log.Queries.{IsWellTyped}
use sawtooth_pbft.Log.Committable.{PrePrepared}
use sawtooth_pbft.Log.Quorums.{check_committable-same_block}
use sawtooth_pbft.Log.OneSigner.{one_signer-check_committable}
use sawtooth_pbft.Service.{Env}
use sawtooth_pbft.Node.{PbftNode, done}
use sawtooth_pbft.Handlers.{make_msg_info, pbft_block_from_block}
use sawtooth_pbft.Node.Broadcast.{make_msg_bytes, broadcast_message}
use sawtooth_pbft.Node.Peer.{on_prepare}
use sawtooth_pbft.Node.Seal.{verify_consensus_seal}
use sawtooth_pbft.Node.Blocks.{on_block_valid}
use sawtooth_pbft.Node.NewBlock.{on_block_new}
use sawtooth_pbft.Node.Prepares.{ChecksOnce, on_prepare_lem}
use sawtooth_pbft.Node.Replaced.{on_block_new-on_block_valid}

-- The first peer is the one that may be faulty.
is_first_peer : Bytes → Bool
is_first_peer s = s == 1 ∷ []

abbrev commit_info : PbftMessageInfo
commit_info = test_info PbftMessageType.commit 0 2

commits_once :
    (ms : List ParsedMessage)
    → votes_for PbftMessageType.commit commit_info test_block (log_of ms)
      ≡ test_message PbftMessageType.commit 0 2
        ∷ test_message PbftMessageType.commit 0 3
        ∷ test_message PbftMessageType.commit 0 4
        ∷ []
    → IsOneVoteEach four_peers (votes_for PbftMessageType.commit commit_info test_block (log_of ms))
unfolding info wrapper_info
commits_once ms e = subst (IsOneVoteEach four_peers) (sym e) (record {
  distinct = ground arith;
  from_peers = (inr (inl refl), (inr (inr (inl refl)), (inr (inr (inr (inl refl))), tt)));
})

counted :
    (IsOneVoteEach four_peers
      (votes_for PbftMessageType.commit commit_info test_block (log_of test_messages)))
    × (IsOneVoteEach four_peers
        (votes_for PbftMessageType.commit commit_info test_block (log_of swapped_messages)))
unfolding is_type_seq_view type_name info wrapper_info block_beq bytes_beq
counted = (commits_once test_messages refl, commits_once swapped_messages refl)

swapped_carry : All (λ m. get_block m ≡ ok test_block) swapped_messages
unfolding get_block get_pbft_message wrapper_message
swapped_carry = (refl, (refl, (refl, (refl, (refl, (refl, (refl, tt)))))))

swapped_typed : All IsWellTyped swapped_messages
unfolding get_block get_pbft_message wrapper_message
swapped_typed = (
  inr (test_block, refl),
  (
    inr (test_block, refl),
    (
      inr (test_block, refl),
      (
        inr (test_block, refl),
        (inr (test_block, refl), (inr (test_block, refl), (inr (test_block, refl), tt))),
      ),
    ),
  ),
)

-- Every message of the logs is about the test block.
same_block :
    (m k : ParsedMessage) (b c : PbftBlock)
    → In m test_messages
    → In k swapped_messages
    → get_block m ≡ ok b
    → get_block k ≡ ok c
    → b ≡ c
same_block m k b c im ik bm bk =
    same (sym bm ∙ carried test_messages m test_messages_carry im)
      (sym bk ∙ carried swapped_messages k swapped_carry ik)
  where
    same : ok b ≡ ok test_block → ok c ≡ ok test_block → b ≡ c
    same e d = cc

both_logs-PrePrepared :
    PrePrepared commit_info (log_of test_messages) test_block
    × PrePrepared commit_info (log_of swapped_messages) test_block
unfolding get_one_msg get_messages_of_type_seq_view is_type_seq_view type_name info wrapper_info
    get_block get_pbft_message wrapper_message
both_logs-PrePrepared = (
  record { first_msg = test_pre_prepare; is_first = refl; carries = refl },
  record { first_msg = test_pre_prepare; is_first = refl; carries = refl },
)

both_committable :
    (check_committable commit_info 1 (log_of test_messages) ≡ ok true)
    × (check_committable commit_info 1 (log_of swapped_messages) ≡ ok true)
unfolding check_committable check_prepared log_has_required_msgs filter_block get_one_msg
    get_messages_of_type_seq_view is_type_seq_view type_name info wrapper_info get_block
    get_pbft_message wrapper_message block_beq bytes_beq
both_committable = (refl, refl)

check_committable-same_block_example : test_block ≡ test_block
unfolding max_faulty is_first_peer bytes_beq
check_committable-same_block_example =
    check_committable-same_block four_peers is_first_peer commit_info (log_of test_messages)
      (log_of swapped_messages) test_block test_block (omega arith) (omega arith) refl (omega arith)
      test_typed swapped_typed counted.0 counted.1
      (λ m k b c im ik honest same at at' bm bk. same_block m k b c im ik bm bk)
      both_logs-PrePrepared.0 both_logs-PrePrepared.1 both_committable.0 both_committable.1

one_signer-check_committable_example :
    (log : PbftLog) × IsDistinct log.messages
    × All (λ m. signer m ≡ 2 ∷ []) log.messages
    × All IsWellTyped log.messages
    × (check_committable commit_info 1 log ≡ ok true)
one_signer-check_committable_example =
    one_signer-check_committable commit_info test_block (2 ∷ []) 1

-- A codec that writes every message as the byte 1.
abbrev writing_env : Env
writing_env = record test_env {
  codec = record (test_env.codec) { write_message = λ m. some (1 ∷ []) };
}

-- Another block at the first sequence number, which needs no seal.
abbrev second_block : Block
second_block = record {
  block_id = 8 ∷ 8 ∷ 8 ∷ [];
  previous_id = [];
  signer_id = 1 ∷ [];
  block_num = 1;
  payload = [];
  summary = 9 ∷ [];
}

abbrev committing_node : PbftNode
committing_node = record test_node {
  state = record test_state { seq_num = 1; phase = PbftPhase.committing };
}

abbrev given_second : PbftNode
given_second = (on_block_new writing_env (λ m. done) second_block committing_node).1

on_block_new-on_block_valid_example :
    (given_second.state ≡ record (committing_node.state) {
      working_block = some (pbft_block_from_block second_block);
    })
    × ((id : Bytes)
        → second_block.block_id ≢ id
        → on_block_valid writing_env (λ m. done) id given_second
          ≡ (err PbftError.not_ready_for_message, given_second))
    × (on_block_valid writing_env (λ m. done) second_block.block_id given_second
        ≡ broadcast_message writing_env
            (λ m. done)
            PbftMessageType.commit
            (make_msg_bytes writing_env
              (make_msg_info PbftMessageType.commit 0 1 (2 ∷ []))
              (pbft_block_from_block second_block))
            given_second)
unfolding verify_consensus_seal
on_block_new-on_block_valid_example =
    on_block_new-on_block_valid writing_env (λ m. done) second_block (1 ∷ []) committing_node none
      refl refl refl refl refl

on_prepare_example :
    ((on_prepare test_env (test_message PbftMessageType.prepare 0 3) test_node).1.calls ≡ [])
    ⊎ ChecksOnce
        (test_message PbftMessageType.prepare 0 3)
        test_node
        (on_prepare test_env (test_message PbftMessageType.prepare 0 3) test_node).1
on_prepare_example = on_prepare_lem test_env (test_message PbftMessageType.prepare 0 3) test_node
