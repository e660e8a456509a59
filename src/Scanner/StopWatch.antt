-- ===== src/Scanner/StopWatch.antt =====
-- client/src/common/CStopWatch.hpp. A time is a number of ticks of the clock, given to each call.
use ubiquitous_chainsaw.Base.{ℕ, ◌-◌, Bool, true, false, Outcome, ok, ◌>>=◌, ◌>>◌, assert}

pub data State : Type 0 where
  running halted : State

pub record StopWatch : Type 0 where
  pub timepoint : ℕ
  pub state : State

-- `m_State == State::active`
abbrev pub is_running : State → Bool
is_running running = true
is_running halted = false

abbrev is_halted : State → Bool
is_halted running = false
is_halted halted = true

abbrev pub active : StopWatch → Bool
active self = is_running self.state

abbrev pub make_stop_watch : ℕ → StopWatch
make_stop_watch now = record { timepoint = now; state = running }

unfoldable pub start : ℕ → StopWatch → Outcome StopWatch
start now self = assert (is_halted self.state) >> ok (record { timepoint = now; state = running })

unfoldable pub halt : StopWatch → Outcome StopWatch
halt self = assert (active self) >> ok (record self { state = halted })

unfoldable pub reset : ℕ → StopWatch → Outcome StopWatch
reset now self = assert (active self) >> ok (record self { timepoint = now })

abbrev pub lap : ℕ → StopWatch → ℕ
lap now self = now - self.timepoint

unfoldable pub time_elapsed : ℕ → StopWatch → Outcome (ℕ × StopWatch)
unfolding reset
time_elapsed now self = reset now self >>= λ self'. ok (lap now self, self')
