-- ===== src/ParsedMessage/Wrapped.antt =====
-- What `from_peer_message` wraps a message in.
use sawtooth_pbft.Common.{
  if◌then◌else◌, Bool-cases, ◌==◌, ==_iff, nat_eq, string_eq, Bytes, bytes_eq, ◌≡◌, refl, sym, ap,
  ◌∙◌, subst, ◌≢◌, ◌⊎◌, inl, inr, Bool, true, false, Option, none, some, arith,
}
use sawtooth_pbft.Protos.{
  PbftMessage, PbftViewChange, block_eq, info_eq, message_eq, seal_eq, view_change_eq,
}
use sawtooth_pbft.MessageType.{type_eq}
use sawtooth_pbft.Error.{PbftError, ok, panic}
use sawtooth_pbft.Outcome.{or_fail, first_step}
use sawtooth_pbft.Codec.{Codec}
use sawtooth_pbft.ParsedMessage.{
  PbftMessageWrapper, ParsedMessage, parsed_eq, wrapper_info, info, wrapper_message,
  get_pbft_message, get_block, verify_sha512, PeerMessage, unless_view_change, or_view_change,
  from_peer_message,
}

-- The message has a block, and its bytes are those of a `PbftMessage` of a type other than `ViewChange`.
pub record IsBlockMessage (c : Codec) (content : Bytes) (msg : ParsedMessage) : Type 0 where
  pub parsed : PbftMessage
  pub is_parsed : c.parse_message content ≡ some parsed
  pub same_info : info msg ≡ parsed.info
  pub other_type : parsed.info.msg_type ≢ "ViewChange"
  pub has_block : get_block msg ≡ ok parsed.block

-- The message is a view change, whatever type it names: `get_block` panics. Its bytes are not those of a
-- `PbftMessage` of a type other than `ViewChange`.
pub record IsViewChange (c : Codec) (content : Bytes) (msg : ParsedMessage) : Type 0 where
  pub parsed : PbftViewChange
  pub is_parsed : c.parse_view_change content ≡ some parsed
  pub same_info : info msg ≡ parsed.info
  pub no_block : get_block msg ≡ panic
  pub no_other :
      (k : PbftMessage) → c.parse_message content ≡ some k → k.info.msg_type ≡ "ViewChange"

-- The wrapper that is chosen, from the two attempts to parse.
wrapper_cases :
    (r : Option PbftMessage) (s : Option PbftViewChange) (w : PbftMessageWrapper)
    → or_view_change (unless_view_change r) s ≡ some w
    → ((k : PbftMessage) × (r ≡ some k)
        × (k.info.msg_type ≢ "ViewChange")
        × (PbftMessageWrapper.message k ≡ w))
      ⊎ ((v : PbftViewChange) × (s ≡ some v)
          × (PbftMessageWrapper.view_change v ≡ w)
          × ((k : PbftMessage) → r ≡ some k → k.info.msg_type ≡ "ViewChange"))
unfolding or_view_change unless_view_change
wrapper_cases none none w h = cc
wrapper_cases none (some v) w h = inr (v, refl, cc, λ k e. cc)
wrapper_cases (some k) s w h = elim (Bool-cases (k.info.msg_type == "ViewChange")) [
  | inl e ↦ view_changed e s refl
  | inr e ↦ inl (k, refl, λ d. ground (arith, (==_iff k.info.msg_type "ViewChange").1 d), wrapped e)
]
  where
    wrapped : (k.info.msg_type == "ViewChange") ≡ false → PbftMessageWrapper.message k ≡ w
    wrapped e = ground arith

    view_changed :
        (k.info.msg_type == "ViewChange") ≡ true
        → (t : Option PbftViewChange) → s ≡ t
        → ((j : PbftMessage) × (some k ≡ some j)
            × (j.info.msg_type ≢ "ViewChange")
            × (PbftMessageWrapper.message j ≡ w))
          ⊎ ((v : PbftViewChange) × (s ≡ some v)
              × (PbftMessageWrapper.view_change v ≡ w)
              × ((j : PbftMessage) → some k ≡ some j → j.info.msg_type ≡ "ViewChange"))
    view_changed e none d = ground arith
    view_changed e (some v) d = inr (
      v,
      d,
      ground arith,
      λ j q. ap (λ x. x.info.msg_type) (sym (same q)) ∙ (==_iff k.info.msg_type "ViewChange").0 e,
    )
      where
        same : {j : PbftMessage} → some k ≡ some j → k ≡ j
        same q = cc

module _ (c : Codec) (m : PeerMessage) (from_self : Bool) where
  abbrev wrapped_in : PbftMessageWrapper → ParsedMessage
  wrapped_in w = record {
    header_bytes = m.header_bytes;
    header_signature = m.header_signature;
    message = w;
    message_bytes = m.content;
    from_self = from_self;
  }

  -- What `from_peer_message` takes from its bytes is either a message with the block and the type of the
  -- `PbftMessage` that they hold, which is not of the type `ViewChange`; or a view change, for which
  -- `get_block` panics, whatever type it names. The bytes are kept, and those of a peer have the hash
  -- that the header gives.
  pub from_peer_message-wrapped :
      (msg : ParsedMessage)
      → from_peer_message c m from_self ≡ ok msg
      → (IsBlockMessage c m.content msg ⊎ IsViewChange c m.content msg)
        × (msg.message_bytes ≡ m.content)
        × (from_self ≡ false → c.sha512 m.content ≡ m.header.content_sha512)
  unfolding from_peer_message verify_sha512 info wrapper_info get_block get_pbft_message
      wrapper_message
  from_peer_message-wrapped msg h =
      let (_, (checked, h1)) =
        first_step (if from_self then ok tt else verify_sha512 c m.content m.header.content_sha512)
          _ h in
      let (w, (parsed, h2)) =
        first_step
          (or_fail (PbftError.internal_error "Couldn't parse message!") (
            or_view_change (unless_view_change (c.parse_message m.content))
              (c.parse_view_change m.content)))
          (λ w. ok (wrapped_in w)) h1 in
      (
        subst (λ x. IsBlockMessage c m.content x ⊎ IsViewChange c m.content x) (is_ok h2)
            (kind w (
              wrapper_cases (c.parse_message m.content) (c.parse_view_change m.content) w
                (unfailed _ w parsed))),
        sym (ap (λ x. x.message_bytes) (is_ok h2)),
        λ e. hashed from_self e checked,
      )
    where
      is_ok : {x y : ParsedMessage} → ok x ≡ ok y → x ≡ y
      is_ok e = cc

      unfailed :
          (r : Option PbftMessageWrapper) (w : PbftMessageWrapper)
          → or_fail (PbftError.internal_error "Couldn't parse message!") r ≡ ok w
          → r ≡ some w
      unfailed none w e = cc
      unfailed (some x) w e = cc

      hashed :
          (b : Bool)
          → b ≡ false
          → (if b then ok tt else verify_sha512 c m.content m.header.content_sha512) ≡ ok tt
          → c.sha512 m.content ≡ m.header.content_sha512
      hashed true e d = cc
      hashed false e d = ground (arith, (==_iff (c.sha512 m.content) m.header.content_sha512).0)

      kind :
          (w : PbftMessageWrapper)
          → ((k : PbftMessage) × (c.parse_message m.content ≡ some k)
              × (k.info.msg_type ≢ "ViewChange")
              × (PbftMessageWrapper.message k ≡ w))
            ⊎ ((v : PbftViewChange) × (c.parse_view_change m.content ≡ some v)
                × (PbftMessageWrapper.view_change v ≡ w)
                × ((k : PbftMessage)
                    → c.parse_message m.content ≡ some k
                    → k.info.msg_type ≡ "ViewChange"))
          → IsBlockMessage c m.content (wrapped_in w) ⊎ IsViewChange c m.content (wrapped_in w)
      kind w (inl (k, e, ne, same)) = inl (
          subst (λ x. IsBlockMessage c m.content (wrapped_in x)) same
            (record {
              parsed = k;
              is_parsed = e;
              same_info = refl;
              other_type = ne;
              has_block = refl;
            }))
      kind w (inr (v, e, same, other)) = inr (
          subst (λ x. IsViewChange c m.content (wrapped_in x)) same
            (record {
              parsed = v;
              is_parsed = e;
              same_info = refl;
              no_block = refl;
              no_other = other;
            }))
