-- ===== src/ParsedMessage.antt =====
-- `ParsedMessage` of src/message_type.rs, with `verify_sha512` of src/hash.rs.
pub mod Wrapped
use sawtooth_pbft.Common.{
  if◌then◌else◌, PartialEq, ◌==◌, ==_iff, nat_eq, string_eq, Bytes, bytes_eq, ◌≡◌, ◌↔◌, Bool, true,
  false, not, ◌&&◌, Option, none, some, [], arith,
}
use sawtooth_pbft.Protos.{
  PbftBlock, PbftMessageInfo, PbftMessage, PbftViewChange, ConsensusPeerMessageHeader, block_eq,
  info_eq, message_eq, seal_eq, view_change_eq,
}
use sawtooth_pbft.MessageType.{PbftMessageType, type_eq, type_name}
use sawtooth_pbft.Error.{PbftError, Outcome, ok, err, panic}
use sawtooth_pbft.Outcome.{◌>>=◌, or_panic, or_fail}
use sawtooth_pbft.Codec.{Codec}

pub data PbftMessageWrapper : Type 0 where
  message : PbftMessage → PbftMessageWrapper
  view_change : PbftViewChange → PbftMessageWrapper

pub record ParsedMessage : Type 0 where
  pub header_bytes : Bytes
  pub header_signature : Bytes
  pub message : PbftMessageWrapper
  pub message_bytes : Bytes
  pub from_self : Bool

unfoldable pub wrapper_beq : PbftMessageWrapper → PbftMessageWrapper → Bool
wrapper_beq (PbftMessageWrapper.message a) (PbftMessageWrapper.message b) = a == b
wrapper_beq (PbftMessageWrapper.view_change a) (PbftMessageWrapper.view_change b) = a == b
wrapper_beq _ _ = false

pub wrapper_beq_iff : (a b : PbftMessageWrapper) → (wrapper_beq a b ≡ true) ↔ (a ≡ b)
unfolding wrapper_beq
wrapper_beq_iff (PbftMessageWrapper.message a) (PbftMessageWrapper.message b) =
    ground (arith, ==_iff a b)
wrapper_beq_iff (PbftMessageWrapper.view_change a) (PbftMessageWrapper.view_change b) =
    ground (arith, ==_iff a b)
wrapper_beq_iff (PbftMessageWrapper.message a) (PbftMessageWrapper.view_change b) = ground arith
wrapper_beq_iff (PbftMessageWrapper.view_change a) (PbftMessageWrapper.message b) = ground arith

abbrev bool_beq : Bool → Bool → Bool
bool_beq true b = b
bool_beq false b = not b

-- The derived `PartialEq`, which compares every field.
unfoldable pub parsed_beq : ParsedMessage → ParsedMessage → Bool
unfolding wrapper_beq
parsed_beq a b =
    a.header_bytes == b.header_bytes
    && (a.header_signature == b.header_signature
        && (wrapper_beq a.message b.message
            && (a.message_bytes == b.message_bytes && bool_beq a.from_self b.from_self)))

pub parsed_beq_iff : (a b : ParsedMessage) → (parsed_beq a b ≡ true) ↔ (a ≡ b)
unfolding parsed_beq
parsed_beq_iff a b = ground (
  arith,
  ==_iff a.header_bytes b.header_bytes,
  ==_iff a.header_signature b.header_signature,
  wrapper_beq_iff a.message b.message,
  ==_iff a.message_bytes b.message_bytes,
)

instance abbrev pub parsed_eq : PartialEq ParsedMessage
parsed_eq = record { matches = parsed_beq; matches_iff = parsed_beq_iff }

unfoldable pub wrapper_info : PbftMessageWrapper → PbftMessageInfo
wrapper_info (PbftMessageWrapper.message m) = m.info
wrapper_info (PbftMessageWrapper.view_change m) = m.info

unfoldable pub info : ParsedMessage → PbftMessageInfo
unfolding wrapper_info
info m = wrapper_info m.message

unfoldable pub wrapper_message : PbftMessageWrapper → Outcome PbftMessage
wrapper_message (PbftMessageWrapper.message m) = ok m
wrapper_message (PbftMessageWrapper.view_change m) = panic

-- `get_pbft_message`, which panics on a view change.
unfoldable pub get_pbft_message : ParsedMessage → Outcome PbftMessage
unfolding wrapper_message
get_pbft_message m = wrapper_message m.message

-- `get_block`, which panics on a view change.
unfoldable pub get_block : ParsedMessage → Outcome PbftBlock
unfolding get_pbft_message
get_block m = do msg ← get_pbft_message m; ok msg.block

unfoldable pub wrapper_view_change : PbftMessageWrapper → Outcome PbftViewChange
wrapper_view_change (PbftMessageWrapper.message m) = panic
wrapper_view_change (PbftMessageWrapper.view_change m) = ok m

-- `get_view_change_message`, which panics on any other message.
unfoldable pub get_view_change_message : ParsedMessage → Outcome PbftViewChange
unfolding wrapper_view_change
get_view_change_message m = wrapper_view_change m.message

unfoldable pub from_pbft_message : Codec → PbftMessage → Outcome ParsedMessage
from_pbft_message c m = do
  bytes ← or_panic (c.write_message m)
  ok (record {
    header_bytes = [];
    header_signature = [];
    message = PbftMessageWrapper.message m;
    message_bytes = bytes;
    from_self = false;
  })

unfoldable pub from_view_change_message : Codec → PbftViewChange → Outcome ParsedMessage
from_view_change_message c m = do
  bytes ← or_panic (c.write_view_change m)
  ok (record {
    header_bytes = [];
    header_signature = [];
    message = PbftMessageWrapper.view_change m;
    message_bytes = bytes;
    from_self = false;
  })

-- `hash_sha512` of src/hash.rs.
abbrev pub hash_sha512 : Codec → Bytes → Bytes
hash_sha512 c bytes = c.sha512 bytes

-- `verify_sha512` of src/hash.rs.
unfoldable pub verify_sha512 : Codec → Bytes → Bytes → Outcome (Unit {0})
verify_sha512 c content content_hash =
    if hash_sha512 c content == content_hash
    then ok tt
    else err (PbftError.internal_error "Hash verification failed!")

-- The SDK's `PeerMessage`.
pub record PeerMessage : Type 0 where
  pub header : ConsensusPeerMessageHeader
  pub header_bytes : Bytes
  pub header_signature : Bytes
  pub content : Bytes

-- The `and_then` of the parse: a message of type `ViewChange` is not taken for a `PbftMessage`.
unfoldable pub unless_view_change : Option PbftMessage → Option PbftMessageWrapper
unless_view_change none = none
unless_view_change (some m) =
    if m.info.msg_type == "ViewChange" then none else some (PbftMessageWrapper.message m)

-- The `or_else` of the parse.
unfoldable pub or_view_change :
    Option PbftMessageWrapper → Option PbftViewChange → Option PbftMessageWrapper
or_view_change (some w) v = some w
or_view_change none none = none
or_view_change none (some v) = some (PbftMessageWrapper.view_change v)

unfoldable pub from_peer_message : Codec → PeerMessage → Bool → Outcome ParsedMessage
unfolding verify_sha512 unless_view_change or_view_change
from_peer_message c m from_self = do
  checked ← if from_self then ok tt else verify_sha512 c m.content m.header.content_sha512
  parsed ← or_fail (PbftError.internal_error "Couldn't parse message!") (
      or_view_change (unless_view_change (c.parse_message m.content))
        (c.parse_view_change m.content))
  ok (record {
    header_bytes = m.header_bytes;
    header_signature = m.header_signature;
    message = parsed;
    message_bytes = m.content;
    from_self = from_self;
  })

-- `PeerMessage::default()` with the given content.
abbrev pub bare_peer_message : Bytes → PeerMessage
bare_peer_message content = record {
  header = record { signer_id = []; content_sha512 = [] };
  header_bytes = [];
  header_signature = [];
  content = content;
}

unfoldable pub from_bytes : Codec → Bytes → Outcome ParsedMessage
unfolding from_peer_message
from_bytes c content = from_peer_message c (bare_peer_message content) true

unfoldable pub as_msg_type : ParsedMessage → PbftMessageType → Outcome ParsedMessage
unfolding get_pbft_message
as_msg_type m t = do
  msg ← get_pbft_message m
  let info = record (msg.info) { msg_type = type_name t }
  ok (record m { message = PbftMessageWrapper.message (record msg { info = info }) })
