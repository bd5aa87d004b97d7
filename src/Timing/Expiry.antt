-- ===== src/Timing/Expiry.antt =====
-- When the timeout of src/timing.rs expires.
use sawtooth_pbft.Common.{ℕ, ◌-◌, ◌<◌, ◌≡◌, refl, ◌↔◌, true, false, arith}
use sawtooth_pbft.Timing.{Timeout, expire, is_expired, check_expired, start, stop}

-- A timeout that was started expires exactly once more than its duration has passed, and one that was
-- stopped does not expire and is left as it is.
pub check_expired_lem :
    (t : Timeout) (begun now : ℕ)
    → (((check_expired now (start begun t)).0 ≡ true) ↔ (t.duration < now - begun))
      × (check_expired now (stop begun t) ≡ (false, stop begun t))
unfolding check_expired expire is_expired start stop
check_expired_lem t begun now = (ground arith, refl)

-- A timeout that has expired stays so: any later check answers the same and changes nothing.
pub check_expired_again :
    (t : Timeout) (now later : ℕ)
    → (check_expired now t).0 ≡ true
    → check_expired later (check_expired now t).1 ≡ (true, (check_expired now t).1)
unfolding check_expired expire is_expired
check_expired_again t now later h = ground (arith, h)
