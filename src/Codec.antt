-- ===== src/Codec.antt =====
-- What the code takes from protobuf and from the hash and signature libraries: parameters of the
-- model. `none` is a failure whose text the model drops.
use sawtooth_pbft.Common.{Bytes, ◌≡◌, Bool, Option, some}
use sawtooth_pbft.Protos.{PbftMessage, PbftSeal, PbftViewChange, ConsensusPeerMessageHeader}
use sawtooth_pbft.MessageType.{PbftMessageType, type_name}

-- `parse_from_bytes` and `write_to_bytes` for each message, `Sha512`, and secp256k1.
pub record Codec : Type 0 where
  pub parse_message : Bytes → Option PbftMessage
  pub write_message : PbftMessage → Option Bytes
  pub parse_view_change : Bytes → Option PbftViewChange
  pub write_view_change : PbftViewChange → Option Bytes
  pub parse_seal : Bytes → Option PbftSeal
  pub write_seal : PbftSeal → Option Bytes
  pub parse_header : Bytes → Option ConsensusPeerMessageHeader
  -- `Sha512`, updated with the bytes and finished.
  pub sha512 : Bytes → Bytes
  -- `Secp256k1PublicKey::from_hex` of the hexadecimal form.
  pub public_key : Bytes → Option Bytes
  pub create_context : Bool
  -- `Context::verify` of a signature, the signed bytes and a key.
  pub verify : Bytes → Bytes → Bytes → Option Bool

-- Protobuf's documented round trip, for messages of the types that the code writes: what is written
-- is read back. A written `PbftViewChange` that is read as a `PbftMessage` shows the same type, since
-- both have the same field `info`.
pub record RoundTrips (c : Codec) : Type 0 where
  pub message_back :
      (t : PbftMessageType) (m : PbftMessage)
      → m.info.msg_type ≡ type_name t
      → (b : Bytes) × (c.write_message m ≡ some b) × (c.parse_message b ≡ some m)
  pub view_change_back :
      (v : PbftViewChange)
      → v.info.msg_type ≡ type_name PbftMessageType.view_change
      → (b : Bytes) × (c.write_view_change v ≡ some b)
        × (c.parse_view_change b ≡ some v)
        × ((m : PbftMessage) → c.parse_message b ≡ some m → m.info.msg_type ≡ v.info.msg_type)
