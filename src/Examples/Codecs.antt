-- ===== src/Examples/Codecs.antt =====
-- A byte format for the messages that is read back as it was written: a list of byte strings, each
-- byte raised by one and each string ended by 0.
use sawtooth_pbft.Common.{
  if◌then◌else◌, rest, ◌==◌, nat_eq, string_eq, Bytes, bytes_eq, ℕ, zero, suc, String, ◌≡◌, refl,
  true, Option, none, some, List, [], ◌∷◌, arith,
}
use sawtooth_pbft.Protos.{
  PbftMessage, PbftSignedCommitVote, PbftSeal, PbftViewChange, block_eq, info_eq, message_eq,
  seal_eq, view_change_eq,
}
use sawtooth_pbft.MessageType.{PbftMessageType, type_eq, from_str, type_name, from_str-type_name}
use sawtooth_pbft.Codec.{Codec, RoundTrips}
use sawtooth_pbft.ParsedMessage.{parsed_eq}
use sawtooth_pbft.Log.Queries.{votes}
use sawtooth_pbft.State.{phase_eq}
use sawtooth_pbft.Log.{entry_eq}

unfoldable pub terminated : Bytes → Bytes → Bytes
terminated [] rest = 0 ∷ rest
terminated (x ∷ xs) rest = suc x ∷ terminated xs rest

unfoldable pub join : List Bytes → Bytes
unfolding terminated
join [] = []
join (xs ∷ xss) = terminated xs (join xss)

unfoldable pub onto_head : ℕ → List Bytes → List Bytes
onto_head x [] = (x ∷ []) ∷ []
onto_head x (xs ∷ xss) = (x ∷ xs) ∷ xss

unfoldable pub split : Bytes → List Bytes
unfolding onto_head
split [] = []
split (zero ∷ xs) = [] ∷ split xs
split (suc x ∷ xs) = onto_head x (split xs)

split-terminated : (xs rest : Bytes) → split (terminated xs rest) ≡ xs ∷ split rest
unfolding split terminated onto_head
split-terminated [] rest = refl
split-terminated (x ∷ xs) rest = rw (split-terminated xs rest)

split-join : (xss : List Bytes) → split (join xss) ≡ xss
unfolding join split
split-join [] = refl
split-join (xs ∷ xss) = rw (split-terminated xs (join xss), split-join xss)

unfoldable pub type_code : PbftMessageType → ℕ
type_code PbftMessageType.pre_prepare = 0
type_code PbftMessageType.prepare = 1
type_code PbftMessageType.commit = 2
type_code PbftMessageType.block_new = 3
type_code PbftMessageType.view_change = 4
type_code PbftMessageType.unset = 5

unfoldable pub code_type : ℕ → PbftMessageType
code_type n =
    if n == 0
    then PbftMessageType.pre_prepare
    else if n == 1
    then PbftMessageType.prepare
    else if n == 2
    then PbftMessageType.commit
    else if n == 3
    then PbftMessageType.block_new
    else if n == 4
    then PbftMessageType.view_change
    else PbftMessageType.unset

code_type-type_code : (t : PbftMessageType) → code_type (type_code t) ≡ t
unfolding code_type type_code
code_type-type_code PbftMessageType.pre_prepare = refl
code_type-type_code _ = refl

-- The names of the types are the only ones that are read back.
abbrev coded : String → String
coded s = type_name (code_type (type_code (from_str s)))

coded_name : (s : String) (t : PbftMessageType) → s ≡ type_name t → coded s ≡ s
coded_name s t h = rw (h, from_str-type_name t, code_type-type_code t)

abbrev code_of : String → ℕ
code_of s = type_code (from_str s)

unfoldable pub message_fields : PbftMessage → List Bytes
message_fields m =
    (code_of m.info.msg_type ∷ m.info.view ∷ m.info.seq_num ∷ [])
    ∷ m.info.signer_id
    ∷ m.block.block_id
    ∷ m.block.signer_id
    ∷ (m.block.block_num ∷ [])
    ∷ m.block.summary
    ∷ []

unfoldable pub fields_message : List Bytes → Option PbftMessage
fields_message ((t ∷ view ∷ seq ∷ []) ∷ signer ∷ id ∷ block_signer ∷ (num ∷ []) ∷ summary ∷ []) =
    some (record {
      info = record {
        msg_type = type_name (code_type t);
        view = view;
        seq_num = seq;
        signer_id = signer;
      };
      block = record {
        block_id = id;
        signer_id = block_signer;
        block_num = num;
        summary = summary;
      };
    })
fields_message _ = none

message_back_lem :
    (m : PbftMessage)
    → coded m.info.msg_type ≡ m.info.msg_type
    → fields_message (split (join (message_fields m))) ≡ some m
unfolding message_fields fields_message
message_back_lem m h = rw (split-join (message_fields m), message_fields, fields_message, h)

unfoldable pub vote_fields : List PbftSignedCommitVote → List Bytes
vote_fields [] = []
vote_fields (v ∷ vs) = v.header_bytes ∷ v.header_signature ∷ v.message_bytes ∷ vote_fields vs

unfoldable pub fields_vote : List Bytes → List PbftSignedCommitVote
fields_vote (h ∷ s ∷ b ∷ xss) =
    record { header_bytes = h; header_signature = s; message_bytes = b } ∷ fields_vote xss
fields_vote _ = []

fields_vote-vote_fields : (vs : List PbftSignedCommitVote) → fields_vote (vote_fields vs) ≡ vs
unfolding fields_vote vote_fields
fields_vote-vote_fields [] = refl
fields_vote-vote_fields (v ∷ vs) = rw (fields_vote-vote_fields vs)

unfoldable pub seal_fields : PbftSeal → List Bytes
seal_fields s = s.previous_id ∷ s.summary ∷ vote_fields s.previous_commit_votes

unfoldable pub view_change_fields : PbftViewChange → List Bytes
unfolding seal_fields
view_change_fields v =
    (code_of v.info.msg_type ∷ v.info.view ∷ v.info.seq_num ∷ 0 ∷ [])
    ∷ v.info.signer_id
    ∷ seal_fields v.seal

unfoldable pub fields_view_change : List Bytes → Option PbftViewChange
fields_view_change ((t ∷ view ∷ seq ∷ zero ∷ []) ∷ signer ∷ id ∷ summary ∷ votes) = some (record {
  info = record {
    msg_type = type_name (code_type t);
    view = view;
    seq_num = seq;
    signer_id = signer;
  };
  seal = record { previous_id = id; summary = summary; previous_commit_votes = fields_vote votes };
})
fields_view_change _ = none

view_change_back_lem :
    (v : PbftViewChange)
    → coded v.info.msg_type ≡ v.info.msg_type
    → fields_view_change (split (join (view_change_fields v))) ≡ some v
unfolding view_change_fields fields_view_change
view_change_back_lem v h = rw (
  split-join (view_change_fields v),
  view_change_fields,
  fields_view_change,
  h,
  fields_vote-vote_fields v.seal.previous_commit_votes,
)

not_message : (v : PbftViewChange) → fields_message (split (join (view_change_fields v))) ≡ none
unfolding view_change_fields fields_message
not_message v = rw (split-join (view_change_fields v), view_change_fields, fields_message)

-- The hash is the text itself, every key is well-formed and every signature is right.
abbrev pub test_codec : Codec
test_codec = record {
  parse_message = λ b. fields_message (split b);
  write_message = λ m. some (join (message_fields m));
  parse_view_change = λ b. fields_view_change (split b);
  write_view_change = λ v. some (join (view_change_fields v));
  parse_seal = λ b. none;
  write_seal = λ s. some (join (seal_fields s));
  parse_header = λ b. some (record { signer_id = b; content_sha512 = b });
  sha512 = λ b. b;
  public_key = λ b. some b;
  create_context = true;
  verify = λ s b k. some true;
}

pub test_codec-RoundTrips : RoundTrips test_codec
test_codec-RoundTrips = record {
  message_back = λ t m h. (_, refl, message_back_lem m (coded_name m.info.msg_type t h));
  view_change_back = λ v h. (
    _,
    refl,
    view_change_back_lem v (coded_name v.info.msg_type PbftMessageType.view_change h),
    λ m e. absurd (never v m e),
  );
}
  where
    never :
        (v : PbftViewChange) (m : PbftMessage)
        → fields_message (split (join (view_change_fields v))) ≡ some m
        → ⊥
    never v m e = ground (arith, not_message v)
