-- ===== src/Node/SealMessages.antt =====
-- What `catchup` reads from the votes of a seal.
use sawtooth_pbft.Common.{◌≡◌, ap, ◌∙◌, List, [], ◌∷◌, arith}
use sawtooth_pbft.Protos.{PbftMessage, PbftSignedCommitVote}
use sawtooth_pbft.Error.{PbftError, ok}
use sawtooth_pbft.Outcome.{◌>>=◌, or_fail, first_step}
use sawtooth_pbft.Codec.{Codec}
use sawtooth_pbft.ParsedMessage.{PbftMessageWrapper, ParsedMessage, from_pbft_message}
use sawtooth_pbft.Node.Votes.{seal_messages}

from_pbft_message-wraps :
    (c : Codec) (p : PbftMessage) (m : ParsedMessage)
    → from_pbft_message c p ≡ ok m
    → m.message ≡ PbftMessageWrapper.message p
unfolding from_pbft_message
from_pbft_message-wraps c p m h = ground arith

-- The messages of a seal wrap no view change.
pub first_message :
    (c : Codec) (vs : List PbftSignedCommitVote) (m : ParsedMessage) (ms : List ParsedMessage)
    → seal_messages c vs ≡ ok (m ∷ ms)
    → (p : PbftMessage) × (m.message ≡ PbftMessageWrapper.message p)
unfolding seal_messages
first_message c [] m ms h = cc
first_message c (v ∷ vs) m ms h =
    let (p, (e, h1)) =
      first_step (or_fail PbftError.serialization_error (c.parse_message v.message_bytes))
        (λ p. from_pbft_message c p >>= λ msg. seal_messages c vs >>= λ msgs. ok (msg ∷ msgs)) h in
    let (msg, (e', h2)) =
      first_step (from_pbft_message c p) (λ msg. seal_messages c vs >>= λ msgs. ok (msg ∷ msgs))
        h1 in
    let (msgs, (e'', h3)) = first_step (seal_messages c vs) (λ msgs. ok (msg ∷ msgs)) h2 in
    (p, from_pbft_message-wraps c p m (e' ∙ ap ok (head_of msg msgs h3)))
  where
    head_of :
        (msg : ParsedMessage) (msgs : List ParsedMessage) → ok (msg ∷ msgs) ≡ ok (m ∷ ms) → msg ≡ m
    head_of msg msgs e = cc
