-- ===== src/State/Quorum.antt =====
-- The number `f` of tolerated faults and the quorum `2f + 1` against the number of peers.
use Prim.Native.Nat.{min}
use sawtooth_pbft.Common.{
  ltb, leb, if◌then◌else◌, length, Bytes, u64_mod, ℕ, zero, suc, ◌+◌, ◌-◌, ◌*◌, ◌≤◌, ◌<◌, ◌≡◌, ◌≢◌,
  Bool, ◌&&◌, List, arith,
}
use sawtooth_pbft.State.{max_faulty}
use sawtooth_pbft.Log.{quorum}

-- How many positions below `n` belong to a set of peers.
abbrev pub size : (ℕ → Bool) → ℕ → ℕ
size p zero = 0
size p (suc n) = if p n then size p n + 1 else size p n

abbrev pub both : (ℕ → Bool) → (ℕ → Bool) → ℕ → Bool
both p q i = p i && q i

size_overlap : (p q : ℕ → Bool) (n : ℕ) → size p n + size q n ≤ n + size (both p q) n
size_overlap p q zero = omega arith
size_overlap p q (suc n) = ground (arith, size_overlap p q n)

-- With at least four peers `f` is positive, `3f + 1` peers are there and at most two more, and the
-- quorum is the number `2f + 1`, without wrap-around.
pub max_faulty_bounds :
    (peers : List Bytes)
    → 4 ≤ length peers
    → length peers < u64_mod
    → (1 ≤ max_faulty peers)
      × (3 * max_faulty peers + 1 ≤ length peers)
      × (length peers ≤ 3 * max_faulty peers + 3)
      × (quorum (max_faulty peers) ≡ 2 * max_faulty peers + 1)
unfolding max_faulty
max_faulty_bounds peers h k = (omega arith, omega arith, omega arith, omega arith)

-- With exactly `3f + 1` peers, two sets of them that both reach the quorum share more than `f`
-- members, so at least one that is not faulty.
pub quorum_overlap :
    (peers : List Bytes) (p q : ℕ → Bool)
    → 4 ≤ length peers
    → length peers < u64_mod
    → quorum (max_faulty peers) ≤ size p (length peers)
    → quorum (max_faulty peers) ≤ size q (length peers)
    → length peers ≡ 3 * max_faulty peers + 1
    → max_faulty peers + 1 ≤ size (both p q) (length peers)
quorum_overlap peers p q h k hp hq e =
    let bounds = max_faulty_bounds peers h k in
    let overlap = size_overlap p q (length peers) in omega arith

abbrev lowest : ℕ → ℕ → Bool
lowest k i = ltb i k

abbrev from_position : ℕ → ℕ → Bool
from_position k i = leb k i

size-lowest : (k n : ℕ) → size (lowest k) n ≡ min k n
size-lowest k zero = omega arith
size-lowest k (suc n) = ground (arith, size-lowest k n)

size-from_position : (k n : ℕ) → size (from_position k) n ≡ n - k
size-from_position k zero = omega arith
size-from_position k (suc n) = ground (arith, size-from_position k n)

size_middle : (k l n : ℕ) → size (both (lowest k) (from_position l)) n ≡ min k n - l
size_middle k l zero = omega arith
size_middle k l (suc n) = ground (arith, size_middle k l n)

-- Where the number of peers is not `3f + 1`, there are two sets of peers that both reach the quorum
-- and share at most `f` members, all of which may be faulty.
pub quorum_gap :
    (peers : List Bytes)
    → 4 ≤ length peers
    → length peers < u64_mod
    → length peers ≢ 3 * max_faulty peers + 1
    → (p : ℕ → Bool) × (q : ℕ → Bool) × (quorum (max_faulty peers) ≤ size p (length peers))
      × (quorum (max_faulty peers) ≤ size q (length peers))
      × (size (both p q) (length peers) ≤ max_faulty peers)
quorum_gap peers h k odd =
    let n = length peers in
    let f = max_faulty peers in
    let m = quorum f in
    let bounds = max_faulty_bounds peers h k in
    (
      lowest m,
      from_position (n - m),
      omega (arith, bounds, size-lowest m n),
      omega (arith, bounds, size-from_position (n - m) n),
      omega (arith, bounds, size_middle m (n - m) n),
    )
