-- ===== src/Log.antt =====
-- `PbftLog` of src/message_log.rs. A `HashSet` is the list of its entries in the order in which it
-- is iterated; Rust leaves that order open, so every theorem is about any list. `insert` adds an
-- entry unless an equal one is there.
pub mod Sets
pub mod Queries
pub mod Order
pub mod Collect
pub mod Seals
pub mod Groups
pub mod Enough
pub mod Committable
pub mod Voters
pub mod Quorums
pub mod OneSigner
use mathlib.Core.Option
use sawtooth_pbft.Common.{
  ltb, leb, if◌then◌else◌, length, first, rest, filter, any, PartialEq, ◌==◌, ==_iff, nat_eq,
  string_eq, Bytes, bytes_eq, add64, sub64, mul64, ℕ, ◌≡◌, ap, ◌↔◌, Bool, true, false, not, ◌&&◌,
  Option, none, some, List, [], ◌∷◌, ◌++◌, arith,
}
use sawtooth_pbft.Protos.{
  PbftMessageInfo, PbftSeal, block_eq, info_eq, message_eq, seal_eq, view_change_eq,
}
use sawtooth_pbft.MessageType.{PbftMessageType, type_eq, from_str, type_name}
use sawtooth_pbft.Error.{PbftError, Outcome, ok, err}
use sawtooth_pbft.Outcome.{◌>>=◌, or_panic}
use sawtooth_pbft.ParsedMessage.{ParsedMessage, parsed_eq, info, get_block}
use sawtooth_pbft.Config.{PbftConfig}

pub record PbftSealEntry : Type 0 where
  pub block_id : Bytes
  pub seq_num : ℕ
  pub seal : PbftSeal

unfoldable pub entry_beq : PbftSealEntry → PbftSealEntry → Bool
entry_beq a b = a.block_id == b.block_id && (a.seq_num == b.seq_num && a.seal == b.seal)

pub entry_beq_iff : (a b : PbftSealEntry) → (entry_beq a b ≡ true) ↔ (a ≡ b)
unfolding entry_beq
entry_beq_iff a b = ground (arith, ==_iff a.block_id b.block_id, ==_iff a.seal b.seal)

instance abbrev pub entry_eq : PartialEq PbftSealEntry
entry_eq = record { matches = entry_beq; matches_iff = entry_beq_iff }

-- `HashSet::insert`.
module _ {A : Type 0} ⦃e : PartialEq A⦄ where
  unfoldable pub contains : A → List A → Bool
  contains a xs = any (λ x. a == x) xs

  unfoldable pub insert : A → List A → List A
  insert a xs = if contains a xs then xs else xs ++ a ∷ []

pub record PbftLog : Type 0 where
  pub messages : List ParsedMessage
  pub max_log_size : ℕ
  pub backlog : List ParsedMessage
  pub seals : List PbftSealEntry

-- `PbftLog::new`.
unfoldable pub new_log : PbftConfig → PbftLog
new_log config = record {
  messages = [];
  max_log_size = config.max_log_size;
  backlog = [];
  seals = [];
}

-- The closures of the two `filter` calls.
unfoldable pub is_type_seq : PbftMessageType → ℕ → ParsedMessage → Bool
is_type_seq t seq m = (info m).msg_type == type_name t && (info m).seq_num == seq

unfoldable pub is_type_seq_view : PbftMessageType → ℕ → ℕ → ParsedMessage → Bool
is_type_seq_view t seq view m =
    (info m).msg_type == type_name t && ((info m).seq_num == seq && (info m).view == view)

unfoldable pub get_messages_of_type_seq : PbftMessageType → ℕ → PbftLog → List ParsedMessage
get_messages_of_type_seq t seq log = filter (is_type_seq t seq) log.messages

unfoldable pub get_messages_of_type_seq_view :
    PbftMessageType → ℕ → ℕ → PbftLog → List ParsedMessage
get_messages_of_type_seq_view t seq view log = filter (is_type_seq_view t seq view) log.messages

unfoldable pub get_one_msg : PbftMessageInfo → PbftMessageType → PbftLog → Option ParsedMessage
unfolding get_messages_of_type_seq_view
get_one_msg i t log = first (get_messages_of_type_seq_view t i.seq_num i.view log)

-- `filter(|msg| msg.get_block() == ref_msg.get_block())`.
unfoldable pub filter_block : ParsedMessage → List ParsedMessage → Outcome (List ParsedMessage)
filter_block ref [] = ok []
filter_block ref (m ∷ ms) = do
  block ← get_block m
  ref_block ← get_block ref
  rest ← filter_block ref ms
  ok (if block == ref_block then m ∷ rest else rest)

-- `log_has_required_msgs`.
unfoldable pub log_has_required_msgs :
    PbftMessageType → ParsedMessage → Bool → ℕ → PbftLog → Outcome Bool
log_has_required_msgs t ref check_block required log = do
  let msgs = get_messages_of_type_seq_view t (info ref).seq_num (info ref).view log
  kept ← if check_block then filter_block ref msgs else ok msgs
  ok (leb required (length kept))

-- `2 * f + 1`.
abbrev pub quorum : ℕ → ℕ
quorum f = add64 (mul64 2 f) 1

unfoldable pub check_prepared : PbftMessageInfo → ℕ → PbftLog → Outcome Bool
check_prepared i f log = elim (get_one_msg i PbftMessageType.pre_prepare log) [
  | none ↦ ok false
  | some msg ↦ log_has_required_msgs PbftMessageType.prepare msg true (quorum f) log
]

-- The second half of `check_committable`, once the node is prepared.
unfoldable pub has_commits : PbftMessageInfo → ℕ → PbftLog → Outcome Bool
has_commits i f log = do
  msg ← or_panic (get_one_msg i PbftMessageType.pre_prepare log)
  log_has_required_msgs PbftMessageType.commit msg true (quorum f) log

unfoldable pub check_committable : PbftMessageInfo → ℕ → PbftLog → Outcome Bool
unfolding has_commits
check_committable i f log = do
  prepared ← check_prepared i f log
  if prepared then has_commits i f log else ok false

-- `add_message`, with the state's view.
unfoldable pub add_message : ParsedMessage → ℕ → PbftLog → Outcome PbftLog
add_message msg state_view log =
    if not (from_str (info msg).msg_type == PbftMessageType.view_change)
      && not ((info msg).view == state_view)
    then err (PbftError.view_mismatch (info msg).view state_view)
    else ok (record log { messages = insert msg log.messages })

unfoldable pub add_consensus_seal : Bytes → ℕ → PbftSeal → PbftLog → PbftLog
add_consensus_seal id seq s log = record log {
  seals = insert (record { block_id = id; seq_num = seq; seal = s }) log.seals;
}

abbrev pub seals_at : ℕ → PbftLog → List PbftSealEntry
seals_at seq log = filter (λ e. e.seq_num == seq) log.seals

-- The answer from the seals found: exactly one is wanted.
unfoldable pub only_seal : List PbftSealEntry → Outcome PbftSeal
only_seal (e ∷ []) = ok e.seal
only_seal es = err (PbftError.wrong_num_seals 1 (length es))

unfoldable pub get_consensus_seal : ℕ → PbftLog → Outcome PbftSeal
unfolding only_seal
get_consensus_seal seq log = only_seal (seals_at seq log)

-- `garbage_collect`; `current_seq_num - 1` wraps at 0.
unfoldable pub garbage_collect : ℕ → Bytes → PbftLog → PbftLog
garbage_collect current id log = record log {
  messages =
      if leb log.max_log_size (length log.messages)
      then filter (λ m. leb (sub64 current 1) (info m).seq_num) log.messages
      else log.messages;
  seals = filter (λ e. e.block_id == id) log.seals;
}

unfoldable pub push_backlog : ParsedMessage → PbftLog → PbftLog
push_backlog msg log = record log { backlog = log.backlog ++ msg ∷ [] }

unfoldable pub pop_backlog : PbftLog → Option ParsedMessage × PbftLog
pop_backlog log = (first log.backlog, record log { backlog = rest log.backlog })

-- The first closure of `get_enough_messages`: the messages of others, of the type and sequence number.
unfoldable pub is_vote : PbftMessageType → ℕ → ParsedMessage → Bool
unfolding is_type_seq
is_vote t seq m = is_type_seq t seq m && not m.from_self

-- `into_group_map` by view.
unfoldable pub add_to_group :
    ParsedMessage → List (ℕ × List ParsedMessage) → List (ℕ × List ParsedMessage)
add_to_group m [] = ((info m).view, m ∷ []) ∷ []
add_to_group m ((v, g) ∷ gs) =
    if (info m).view == v then (v, m ∷ g) ∷ gs else (v, g) ∷ add_to_group m gs

unfoldable pub group_by_view : List ParsedMessage → List (ℕ × List ParsedMessage)
unfolding add_to_group
group_by_view [] = []
group_by_view (m ∷ ms) = add_to_group m (group_by_view ms)

-- `sorted_by_key` of the view, and `pop`: the entry of the highest view.
unfoldable pub higher :
    ℕ × List ParsedMessage → Option (ℕ × List ParsedMessage) → ℕ × List ParsedMessage
higher e none = e
higher (v, g) (some (w, h)) = if ltb w v then (v, g) else (w, h)

unfoldable pub highest : List (ℕ × List ParsedMessage) → Option (ℕ × List ParsedMessage)
unfolding higher
highest [] = none
highest (e ∷ es) = some (higher e (highest es))

-- `filter(|(_, msgs)| msgs.len() >= minimum)`.
unfoldable pub large_groups : ℕ → List (ℕ × List ParsedMessage) → List (ℕ × List ParsedMessage)
large_groups minimum = filter (λ e. leb minimum (length e.1))

unfoldable pub get_enough_messages : PbftMessageType → ℕ → ℕ → PbftLog → Option (List ParsedMessage)
unfolding is_vote group_by_view highest large_groups
get_enough_messages t seq minimum log =
    Option.map (λ e. e.1)
      (highest (large_groups minimum (group_by_view (filter (is_vote t seq) log.messages))))
