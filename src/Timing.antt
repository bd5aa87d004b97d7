-- ===== src/Timing.antt =====
-- src/timing.rs. An `Instant` is a number of milliseconds; each reading of the clock is an argument.
pub mod Expiry
use sawtooth_pbft.Common.{ltb, leb, if◌then◌else◌, ℕ, ◌-◌, Bool, true, false}

pub record Ticker : Type 0 where
  pub last : ℕ
  pub timeout : ℕ

-- `Ticker::new`, with the time that `Instant::now` gives.
unfoldable pub new_ticker : ℕ → ℕ → Ticker
new_ticker period now = record { last = now; timeout = period }

-- `tick`: whether the callback runs, and the ticker afterwards. The clock is read again once the
-- callback is done.
unfoldable pub tick : ℕ → ℕ → Ticker → Bool × Ticker
tick now later t =
    if leb t.timeout (now - t.last) then (true, record t { last = later }) else (false, t)

pub data TimeoutState : Type 0 where
  active inactive expired : TimeoutState

pub record Timeout : Type 0 where
  pub state : TimeoutState
  pub duration : ℕ
  pub start_time : ℕ

unfoldable pub new_timeout : ℕ → ℕ → Timeout
new_timeout duration now = record {
  state = TimeoutState.inactive;
  duration = duration;
  start_time = now;
}

-- The first step of `check_expired`: an active timer that has run out becomes `expired`.
unfoldable pub expire : TimeoutState → ℕ → Timeout → Timeout
expire TimeoutState.active now t =
    if ltb t.duration (now - t.start_time) then record t { state = TimeoutState.expired } else t
expire TimeoutState.inactive now t = t
expire TimeoutState.expired now t = t

unfoldable pub is_expired : TimeoutState → Bool
is_expired TimeoutState.active = false
is_expired TimeoutState.inactive = false
is_expired TimeoutState.expired = true

-- `check_expired`.
unfoldable pub check_expired : ℕ → Timeout → Bool × Timeout
unfolding expire is_expired
check_expired now t = let t' = expire t.state now t in (is_expired t'.state, t')

unfoldable pub start : ℕ → Timeout → Timeout
start now t = record t { state = TimeoutState.active; start_time = now }

unfoldable pub stop : ℕ → Timeout → Timeout
stop now t = record t { state = TimeoutState.inactive; start_time = now }
