-- ===== src/State.antt =====
-- `PbftState` of src/state.rs: the fields of the algorithm's state and its methods.
pub mod Phases
pub mod Quorum
use sawtooth_pbft.Common.{
  ltb, if◌then◌else◌, length, get_elem?, first, PartialEq, ◌==◌, nat_eq, string_eq, Bytes, bytes_eq,
  is_yes, is_yes_iff, add64, sub64, ℕ, ◌/◌, ◌%◌, ◌≡◌, ◌↔◌, Bool, true, false, Option, none, some,
  List,
}
use sawtooth_pbft.Protos.{PbftBlock, block_eq, info_eq, message_eq, seal_eq, view_change_eq}
use sawtooth_pbft.MessageType.{PbftMessageType, type_eq}
use sawtooth_pbft.Error.{Outcome, ok, panic}
use sawtooth_pbft.Outcome.{◌>>=◌, or_panic}
use sawtooth_pbft.Timing.{Timeout, new_timeout, start}
use sawtooth_pbft.Config.{PbftConfig}

pub data PbftNodeRole : Type 0 where
  primary secondary : PbftNodeRole

pub data PbftPhase : Type 0 where
  pre_preparing preparing checking committing finished : PbftPhase

pub data PbftMode : Type 0 where
  normal view_changing : PbftMode

pub PbftPhase-discrete : Discrete PbftPhase
PbftPhase-discrete = hlevel

unfoldable pub phase_beq : PbftPhase → PbftPhase → Bool
unfolding PbftPhase-discrete
phase_beq a b = is_yes (PbftPhase-discrete a b)

pub phase_beq_iff : (a b : PbftPhase) → (phase_beq a b ≡ true) ↔ (a ≡ b)
unfolding phase_beq
phase_beq_iff a b = is_yes_iff (PbftPhase-discrete a b)

instance abbrev pub phase_eq : PartialEq PbftPhase
phase_eq = record { matches = phase_beq; matches_iff = phase_beq_iff }

-- `state.mode == PbftMode::ViewChanging`.
abbrev pub is_view_changing : PbftMode → Bool
is_view_changing PbftMode.normal = false
is_view_changing PbftMode.view_changing = true

pub record PbftState : Type 0 where
  pub id : Bytes
  pub seq_num : ℕ
  pub view : ℕ
  pub phase : PbftPhase
  pub role : PbftNodeRole
  pub mode : PbftMode
  pub peer_ids : List Bytes
  pub f : ℕ
  pub faulty_primary_timeout : Timeout
  pub forced_view_change_period : ℕ
  pub working_block : Option PbftBlock

-- `((peers.len() - 1) / 3) as u64`.
unfoldable pub max_faulty : List Bytes → ℕ
max_faulty peers = sub64 (length peers) 1 / 3

unfoldable pub initial_role : Bytes → Bytes → PbftNodeRole
initial_role first_peer id =
    if first_peer == id then PbftNodeRole.primary else PbftNodeRole.secondary

-- `PbftState::new`, at the time that `Timeout::new` reads. `config.peers[0]` panics on no peers.
unfoldable pub new_state : Bytes → ℕ → PbftConfig → ℕ → Outcome PbftState
unfolding max_faulty initial_role new_timeout
new_state id head_block_num config now = if max_faulty config.peers == 0 then panic else do
  first_peer ← or_panic (first config.peers)
  ok (record {
    id = id;
    seq_num = add64 head_block_num 1;
    view = 0;
    phase = PbftPhase.pre_preparing;
    role = initial_role first_peer id;
    mode = PbftMode.normal;
    peer_ids = config.peers;
    f = max_faulty config.peers;
    faulty_primary_timeout = new_timeout config.faulty_primary_timeout now;
    forced_view_change_period = config.forced_view_change_period;
    working_block = none;
  })

unfoldable pub phase_msg_type : PbftPhase → PbftMessageType
phase_msg_type PbftPhase.pre_preparing = PbftMessageType.pre_prepare
phase_msg_type PbftPhase.preparing = PbftMessageType.prepare
phase_msg_type PbftPhase.checking = PbftMessageType.prepare
phase_msg_type PbftPhase.committing = PbftMessageType.commit
phase_msg_type PbftPhase.finished = PbftMessageType.unset

unfoldable pub check_msg_type : PbftState → PbftMessageType
unfolding phase_msg_type
check_msg_type s = phase_msg_type s.phase

-- The remainder by 0 and an index out of range both panic.
unfoldable pub get_primary_id : PbftState → Outcome Bytes
get_primary_id s = or_panic (get_elem? s.peer_ids (s.view % length s.peer_ids))

abbrev pub role_is_primary : PbftNodeRole → Bool
role_is_primary PbftNodeRole.primary = true
role_is_primary PbftNodeRole.secondary = false

abbrev pub is_primary : PbftState → Bool
is_primary s = role_is_primary s.role

unfoldable pub upgrade_role : PbftState → PbftState
upgrade_role s = record s { role = PbftNodeRole.primary }

unfoldable pub downgrade_role : PbftState → PbftState
downgrade_role s = record s { role = PbftNodeRole.secondary }

unfoldable pub next_phase : PbftPhase → PbftPhase
next_phase PbftPhase.pre_preparing = PbftPhase.preparing
next_phase PbftPhase.preparing = PbftPhase.checking
next_phase PbftPhase.checking = PbftPhase.committing
next_phase PbftPhase.committing = PbftPhase.finished
next_phase PbftPhase.finished = PbftPhase.pre_preparing

-- `switch_phase`: the state afterwards, and the new phase if it changed.
unfoldable pub switch_phase : PbftPhase → PbftState → PbftState × Option PbftPhase
unfolding next_phase phase_beq
switch_phase desired s =
    if desired == next_phase s.phase
    then (record s { phase = desired }, some desired)
    else (s, none)

-- `at_forced_view_change`; the remainder by a period of 0 panics.
unfoldable pub at_forced_view_change : PbftState → Outcome Bool
at_forced_view_change s =
    if ltb 0 s.seq_num
    then if s.forced_view_change_period == 0
      then panic
      else ok (s.seq_num % s.forced_view_change_period == 0)
    else ok false

-- `discard_current_block`, at the time that the timer reads.
unfoldable pub discard_current_block : ℕ → PbftState → PbftState
unfolding start
discard_current_block now s = record s {
  working_block = none;
  phase = PbftPhase.pre_preparing;
  mode = PbftMode.normal;
  faulty_primary_timeout = start now s.faulty_primary_timeout;
}
