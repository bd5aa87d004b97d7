-- ===== src/MessageType.antt =====
-- The message types of src/message_type.rs: `PbftMessageType` and its conversions.
use sawtooth_pbft.Common.{
  if◌then◌else◌, PartialEq, ◌==◌, nat_eq, string_eq, bytes_eq, is_yes, is_yes_iff, String, ◌≡◌,
  refl, sym, ap, ◌∙◌, ◌↔◌, Bool, true, false,
}

pub data PbftMessageType : Type 0 where
  pre_prepare prepare commit block_new view_change unset : PbftMessageType

pub PbftMessageType-discrete : Discrete PbftMessageType
PbftMessageType-discrete = hlevel

-- The derived `PartialEq`.
unfoldable pub type_beq : PbftMessageType → PbftMessageType → Bool
unfolding PbftMessageType-discrete
type_beq a b = is_yes (PbftMessageType-discrete a b)

pub type_beq_iff : (a b : PbftMessageType) → (type_beq a b ≡ true) ↔ (a ≡ b)
unfolding type_beq
type_beq_iff a b = is_yes_iff (PbftMessageType-discrete a b)

instance abbrev pub type_eq : PartialEq PbftMessageType
type_eq = record { matches = type_beq; matches_iff = type_beq_iff }

-- `is_multicast`.
unfoldable pub is_multicast : PbftMessageType → Bool
is_multicast PbftMessageType.pre_prepare = true
is_multicast PbftMessageType.prepare = true
is_multicast PbftMessageType.commit = true
is_multicast _ = false

-- `From<&str> for PbftMessageType`.
unfoldable pub from_str : String → PbftMessageType
from_str s =
    if s == "PrePrepare"
    then PbftMessageType.pre_prepare
    else if s == "Prepare"
    then PbftMessageType.prepare
    else if s == "Commit"
    then PbftMessageType.commit
    else if s == "BlockNew"
    then PbftMessageType.block_new
    else if s == "ViewChange"
    then PbftMessageType.view_change
    else PbftMessageType.unset

-- `From<&PbftMessageType> for String`, the name that `Debug` prints.
unfoldable pub type_name : PbftMessageType → String
type_name PbftMessageType.pre_prepare = "PrePrepare"
type_name PbftMessageType.prepare = "Prepare"
type_name PbftMessageType.commit = "Commit"
type_name PbftMessageType.block_new = "BlockNew"
type_name PbftMessageType.view_change = "ViewChange"
type_name PbftMessageType.unset = "Unset"

-- A type is read back from its name.
pub from_str-type_name : (t : PbftMessageType) → from_str (type_name t) ≡ t
unfolding from_str type_name
from_str-type_name PbftMessageType.pre_prepare = refl
from_str-type_name _ = refl

pub type_name_injective : (a b : PbftMessageType) → type_name a ≡ type_name b → a ≡ b
type_name_injective a b h = sym (from_str-type_name a) ∙ ap from_str h ∙ from_str-type_name b
