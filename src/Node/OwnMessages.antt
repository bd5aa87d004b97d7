-- ===== src/Node/OwnMessages.antt =====
-- The messages that a node sends to itself, as it reads them back.
use text.Mathlib.TextEquality.{eq_iff}
use sawtooth_pbft.Common.{Option-cases, Bytes, ◌≡◌, ◌≢◌, inl, inr, true, some, [], arith}
use sawtooth_pbft.Protos.{PbftMessage, PbftViewChange}
use sawtooth_pbft.MessageType.{PbftMessageType, type_name, type_name_injective}
use sawtooth_pbft.Error.{ok}
use sawtooth_pbft.Codec.{Codec}
use sawtooth_pbft.ParsedMessage.{PbftMessageWrapper, ParsedMessage, from_bytes}

-- What the node makes of the bytes of its own message.
abbrev pub own_message : PbftMessage → Bytes → ParsedMessage
own_message m b = record {
  header_bytes = [];
  header_signature = [];
  message = PbftMessageWrapper.message m;
  message_bytes = b;
  from_self = true;
}

abbrev pub own_view_change : PbftViewChange → Bytes → ParsedMessage
own_view_change v b = record {
  header_bytes = [];
  header_signature = [];
  message = PbftMessageWrapper.view_change v;
  message_bytes = b;
  from_self = true;
}

view_change_name :
    (t : PbftMessageType) → t ≢ PbftMessageType.view_change → type_name t ≢ "ViewChange"
unfolding type_name
view_change_name t ne e = ne (type_name_injective t PbftMessageType.view_change e)

module _ (c : Codec) where
  pub from_bytes_message :
      (t : PbftMessageType) (m : PbftMessage) (b : Bytes)
      → t ≢ PbftMessageType.view_change
      → m.info.msg_type ≡ type_name t
      → c.parse_message b ≡ some m
      → from_bytes c b ≡ ok (own_message m b)
  unfolding from_bytes
  from_bytes_message t m b ne name back =
      ground (arith, eq_iff m.info.msg_type "ViewChange", view_change_name t ne)

  pub from_bytes_view_change :
      (v : PbftViewChange) (b : Bytes)
      → v.info.msg_type ≡ type_name PbftMessageType.view_change
      → c.parse_view_change b ≡ some v
      → ((m : PbftMessage) → c.parse_message b ≡ some m → m.info.msg_type ≡ v.info.msg_type)
      → from_bytes c b ≡ ok (own_view_change v b)
  unfolding from_bytes type_name
  from_bytes_view_change v b name back same = elim (Option-cases (c.parse_message b)) [
    | inl e ↦ ground arith
    | inr (m, e) ↦ ground (arith, eq_iff m.info.msg_type "ViewChange", same m e)
  ]
