-- ===== src/Log/Collect.antt =====
-- `garbage_collect`, and the seals through it.
use sawtooth_pbft.Common.{
  leb, leb→le, le→leb, Bool-cases, length, filter, All, In, ◌==◌, ==_iff, nat_eq, string_eq, Bytes,
  bytes_eq, u64_mod, sub64, sub64_exact, ℕ, ◌+◌, ◌-◌, ◌≤◌, ◌<◌, ◌≡◌, refl, ◌↔◌, inl, inr, Bool,
  true, List, [], ◌∷◌, arith,
}
use sawtooth_pbft.Protos.{block_eq, info_eq, message_eq, seal_eq, view_change_eq}
use sawtooth_pbft.MessageType.{type_eq}
use sawtooth_pbft.ParsedMessage.{ParsedMessage, parsed_eq, info}
use sawtooth_pbft.State.{phase_eq}
use sawtooth_pbft.Log.{PbftSealEntry, entry_eq, PbftLog, garbage_collect}
use sawtooth_pbft.Log.Queries.{In-filter}

module _ {A : Type 0} (p q : A → Bool) where
  -- A filter loses nothing that another filter would keep.
  filter_keeps :
      (xs : List A) → ((x : A) → q x ≡ true → p x ≡ true) → filter q (filter p xs) ≡ filter q xs
  filter_keeps [] h = refl
  filter_keeps (x ∷ xs) h = ground (arith, filter_keeps xs h, h x)

All-filter : {A : Type 0} (p : A → Bool) (xs : List A) → All (λ x. p x ≡ true) (filter p xs)
All-filter p [] = tt
All-filter p (x ∷ xs) = elim (Bool-cases (p x)) [
  | inl e ↦ rw e (e, All-filter p xs)
  | inr e ↦ rw e (All-filter p xs)
]

-- The messages of the previous sequence number and later ones.
abbrev pub is_recent : ℕ → ParsedMessage → Bool
is_recent current m = leb (current - 1) (info m).seq_num

-- What `garbage_collect` leaves of a log.
pub record Collected (current : ℕ) (id : Bytes) (log log' : PbftLog) : Type 0 where
  pub recent_kept :
      filter (is_recent current) log'.messages ≡ filter (is_recent current) log.messages
  pub old_dropped :
      log.max_log_size ≤ length log.messages
      → All (λ m. current ≤ (info m).seq_num + 1) log'.messages
  pub small_untouched : length log.messages < log.max_log_size → log'.messages ≡ log.messages
  pub seals_of_block : (e : PbftSealEntry) → In e log'.seals ↔ (In e log.seals × (e.block_id ≡ id))
  pub same_backlog : log'.backlog ≡ log.backlog

All-mono :
    {A : Type 0} (P Q : A → Type 0) (xs : List A) → ((x : A) → P x → Q x) → All P xs → All Q xs
All-mono P Q [] f h = tt
All-mono P Q (x ∷ xs) f h = (f x h.0, All-mono P Q xs f h.1)

module _ (current : ℕ) (id : Bytes) (log : PbftLog) (h : 1 ≤ current) (k : current < u64_mod) where
  recent_kept_lem :
      filter (is_recent current) (garbage_collect current id log).messages
      ≡ filter (is_recent current) log.messages
  unfolding garbage_collect
  recent_kept_lem = elim (Bool-cases (leb log.max_log_size (length log.messages))) [
    | inl full ↦ rw full (
        filter_keeps (λ m. leb (sub64 current 1) (info m).seq_num) (is_recent current) log.messages
          (λ m e. rw (sub64_exact current 1 h k) e))
    | inr room ↦ rw room
  ]

  old_dropped_lem :
      log.max_log_size ≤ length log.messages
      → All (λ m. current ≤ (info m).seq_num + 1) (garbage_collect current id log).messages
  unfolding garbage_collect
  old_dropped_lem full = rw (le→leb log.max_log_size (length log.messages) full) (
      All-mono (λ m. leb (sub64 current 1) (info m).seq_num ≡ true)
        (λ m. current ≤ (info m).seq_num + 1) _ (λ m e. omega (arith, leb→le _ _ e))
        (All-filter (λ m. leb (sub64 current 1) (info m).seq_num) log.messages))

-- From a sequence number that is not 0, `garbage_collect` keeps every message of the previous
-- sequence number or a later one, in order; once the log has reached its maximal size no older
-- message is left, and before that no message is dropped. Of the seals exactly those of the given
-- block stay. The backlog is not touched.
pub garbage_collect_lem :
    (current : ℕ) (id : Bytes) (log : PbftLog)
    → 1 ≤ current
    → current < u64_mod
    → Collected current id log (garbage_collect current id log)
unfolding garbage_collect
garbage_collect_lem current id log h k = record {
  recent_kept = recent_kept_lem current id log h k;
  old_dropped = old_dropped_lem current id log h k;
  small_untouched = λ small. ground arith;
  seals_of_block = λ e. of_block e;
  same_backlog = refl;
}
  where
    of_block :
        (e : PbftSealEntry)
        → In e (filter (λ x. x.block_id == id) log.seals) ↔ (In e log.seals × (e.block_id ≡ id))
    of_block e = ground (arith, In-filter (λ x. x.block_id == id) e log.seals, ==_iff e.block_id id)
