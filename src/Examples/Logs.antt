-- ===== src/Examples/Logs.antt =====
-- A log of four peers, with a block that is prepared and committed, and the theorems about the log
-- applied to it.
use mathlib.Core.List.{Permᴰ}
use sawtooth_pbft.Common.{
  All, In, ℕ, ◌≤◌, ◌≡◌, refl, sym, ◌∙◌, ◌↔◌, ◌⊎◌, inl, inr, Bool, true, false, none, some, List, [],
  ◌∷◌, arith,
}
use sawtooth_pbft.Protos.{PbftBlock, PbftMessageInfo, PbftSeal}
use sawtooth_pbft.MessageType.{PbftMessageType, type_name}
use sawtooth_pbft.Error.{PbftError, ok, err}
use sawtooth_pbft.ParsedMessage.{
  PbftMessageWrapper, ParsedMessage, wrapper_message, get_pbft_message, get_block,
}
use sawtooth_pbft.Log.{
  PbftLog, check_committable, add_consensus_seal, get_consensus_seal, garbage_collect,
  get_enough_messages,
}
use sawtooth_pbft.Log.Queries.{IsWellTyped}
use sawtooth_pbft.Log.Committable.{PrePrepared, HasQuorum, check_committable_iff}
use sawtooth_pbft.Log.Order.{Agrees, check_committable-Permᴰ}
use sawtooth_pbft.Log.Collect.{Collected, garbage_collect_lem}
use sawtooth_pbft.Log.Enough.{votes_in_view, HasEnough, get_enough_messages_lem}
use sawtooth_pbft.Log.Seals.{get_consensus_seal_collected}
use sawtooth_pbft.Log.Voters.{signer}

abbrev pub test_block : PbftBlock
test_block = record {
  block_id = 7 ∷ 7 ∷ 7 ∷ [];
  signer_id = 1 ∷ [];
  block_num = 5;
  summary = 9 ∷ [];
}

abbrev pub test_info : PbftMessageType → ℕ → ℕ → PbftMessageInfo
test_info t view signer = record {
  msg_type = type_name t;
  view = view;
  seq_num = 5;
  signer_id = signer ∷ [];
}

-- A message about the block, of a type and a view, from a signer.
abbrev pub test_message : PbftMessageType → ℕ → ℕ → ParsedMessage
test_message t view signer = record {
  header_bytes = [];
  header_signature = [];
  message =
      PbftMessageWrapper.message (record { info = test_info t view signer; block = test_block });
  message_bytes = signer ∷ [];
  from_self = false;
}

abbrev pub test_pre_prepare : ParsedMessage
test_pre_prepare = test_message PbftMessageType.pre_prepare 0 1

-- Three `Prepare` and three `Commit` messages after the `PrePrepare`.
abbrev pub test_messages : List ParsedMessage
test_messages =
    test_pre_prepare
    ∷ test_message PbftMessageType.prepare 0 2
    ∷ test_message PbftMessageType.prepare 0 3
    ∷ test_message PbftMessageType.prepare 0 4
    ∷ test_message PbftMessageType.commit 0 2
    ∷ test_message PbftMessageType.commit 0 3
    ∷ test_message PbftMessageType.commit 0 4
    ∷ []

abbrev pub log_of : List ParsedMessage → PbftLog
log_of ms = record { messages = ms; max_log_size = 2; backlog = []; seals = [] }

pub test_messages_carry : All (λ m. get_block m ≡ ok test_block) test_messages
unfolding get_block get_pbft_message wrapper_message
test_messages_carry = (refl, (refl, (refl, (refl, (refl, (refl, (refl, tt)))))))

pub test_typed : All IsWellTyped test_messages
test_typed = every test_messages test_messages_carry
  where
    every :
        (ms : List ParsedMessage) → All (λ m. get_block m ≡ ok test_block) ms → All IsWellTyped ms
    every [] h = tt
    every (m ∷ ms) h = (inr (test_block, h.0), every ms h.1)

pub carried :
    (ms : List ParsedMessage) (m : ParsedMessage)
    → All (λ k. get_block k ≡ ok test_block) ms
    → In m ms
    → get_block m ≡ ok test_block
carried [] m h i = absurd i
carried (k ∷ ms) m h (inl e) = rw e h.0
carried (k ∷ ms) m h (inr i) = carried ms m h.1 i

test_agreed : Agrees test_messages
test_agreed m k seq view b c im ik pm pk bm bk =
    same (sym bm ∙ carried test_messages m test_messages_carry im)
      (sym bk ∙ carried test_messages k test_messages_carry ik)
  where
    same : ok b ≡ ok test_block → ok c ≡ ok test_block → b ≡ c
    same e d = cc

check_committable_example :
    ((r : Bool) × (check_committable (test_info PbftMessageType.commit 0 2) 1 (log_of test_messages)
        ≡ ok r))
    × ((check_committable (test_info PbftMessageType.commit 0 2) 1 (log_of test_messages) ≡ ok true)
        ↔ ((b : PbftBlock) × PrePrepared
              (test_info PbftMessageType.commit 0 2)
              (log_of test_messages)
              b
            × HasQuorum PbftMessageType.prepare
                (test_info PbftMessageType.commit 0 2)
                1
                (log_of test_messages)
                b
            × HasQuorum PbftMessageType.commit
                (test_info PbftMessageType.commit 0 2)
                1
                (log_of test_messages)
                b))
check_committable_example =
    check_committable_iff (test_info PbftMessageType.commit 0 2) 1 (log_of test_messages) test_typed

-- The first two messages the other way round.
abbrev pub swapped_messages : List ParsedMessage
swapped_messages =
    test_message PbftMessageType.prepare 0 2
    ∷ test_pre_prepare
    ∷ test_message PbftMessageType.prepare 0 3
    ∷ test_message PbftMessageType.prepare 0 4
    ∷ test_message PbftMessageType.commit 0 2
    ∷ test_message PbftMessageType.commit 0 3
    ∷ test_message PbftMessageType.commit 0 4
    ∷ []

check_committable-Permᴰ_example :
    check_committable (test_info PbftMessageType.commit 0 2) 1 (log_of test_messages)
    ≡ check_committable (test_info PbftMessageType.commit 0 2) 1 (log_of swapped_messages)
check_committable-Permᴰ_example =
    check_committable-Permᴰ (test_info PbftMessageType.commit 0 2) 1 (log_of test_messages)
      swapped_messages test_typed test_agreed (Permᴰ.swap refl refl)

garbage_collect_example :
    Collected 7 (7 ∷ []) (log_of test_messages) (garbage_collect 7 (7 ∷ []) (log_of test_messages))
garbage_collect_example =
    garbage_collect_lem 7 (7 ∷ []) (log_of test_messages) (omega arith) (omega arith)

abbrev test_seal : PbftSeal
test_seal = record { previous_id = 7 ∷ 7 ∷ 7 ∷ []; summary = 9 ∷ []; previous_commit_votes = [] }

get_consensus_seal_example :
    let log' = garbage_collect 6 (7 ∷ []) (add_consensus_seal (7 ∷ []) 5 test_seal (log_of [])) in
    (get_consensus_seal 5 log' ≡ ok test_seal)
    × (get_consensus_seal 4 log' ≡ err (PbftError.wrong_num_seals 1 0))
get_consensus_seal_example = get_consensus_seal_collected (7 ∷ []) 5 6 4 test_seal (log_of []) refl

get_enough_messages_example :
    ((v : ℕ) × (get_enough_messages PbftMessageType.commit 5 2 (log_of test_messages)
        ≡ some (votes_in_view PbftMessageType.commit 5 v (log_of test_messages)))
      × HasEnough PbftMessageType.commit 5 2 (log_of test_messages) v
      × ((w : ℕ) → HasEnough PbftMessageType.commit 5 2 (log_of test_messages) w → w ≤ v))
    ⊎ ((get_enough_messages PbftMessageType.commit 5 2 (log_of test_messages) ≡ none)
        × ((w : ℕ) → ¬ HasEnough PbftMessageType.commit 5 2 (log_of test_messages) w))
get_enough_messages_example =
    get_enough_messages_lem PbftMessageType.commit 5 2 (log_of test_messages)
