-- ===== src/Wait.antt =====
-- The loops that wait for the responses of the container: Appender.respWaitLoop of
-- backends/kv/writer.go, and respWaitLoop of v3ioutils/container.go, which DeleteTable runs.
-- A run is the list of what `select` receives, round by round.
pub mod Laws
use frames.Base.{
  ℤ, pos, negsuc, ℕ, suc, Bool, true, false, List, [], ◌∷◌, Option, none, some, Error, eqb_ℤ, leb_ℤ,
  not, ◌&&◌, if◌then◌else◌,
}

-- What a round of the loop receives: a response, which may carry an error, the number of requests
-- that were sent, or the timer.
pub data Event : Type 0 where
  response : Option Error → Event
  count : ℕ → Event
  tick : Event

-- The variables of the loop. `armed` says that the timer is running, `finished` that the loop has
-- signalled on doneChan and returned.
pub record Loop : Type 0 where
  pub responses : ℕ
  pub requests : ℤ
  pub active : Bool
  pub armed : Bool
  pub async_err : Option Error
  pub finished : Bool

unfoldable pub new_loop : Loop
new_loop = record {
  responses = 0;
  requests = negsuc 0;
  active = false;
  armed = true;
  async_err = none;
  finished = false;
}

abbrev pub last_error : Option Error → Option Error → Option Error
last_error (some e) old = some e
last_error none old = old

-- `case resp := <-a.responseChan`, with the timer set again.
unfoldable pub on_response : Loop → Option Error → Loop
on_response s e = record s {
  responses = suc s.responses;
  active = true;
  armed = true;
  async_err = last_error e s.async_err;
  finished = eqb_ℤ s.requests (pos (suc s.responses));
}

-- `case requests = <-a.commChan`
unfoldable pub on_count : Loop → ℕ → Loop
on_count s n = record s { requests = pos n; finished = leb_ℤ (pos n) (pos s.responses) }

-- `case <-timer.C`: the timer has fired, and is not set again.
unfoldable pub on_tick : Loop → Loop
on_tick s =
    if not s.active
    then record s { async_err = some Error.timed_out; finished = true; armed = false }
    else record s { active = false; armed = false }

-- A round of respWaitLoop. A timer that is not running never fires.
unfoldable pub step : Loop → Event → Loop
unfolding on_response on_count on_tick
step s (response e) = on_response s e
step s (count n) = on_count s n
step s tick = if s.armed then on_tick s else s

unfoldable pub run : Loop → List Event → Loop
unfolding step
run s [] = s
run s (e ∷ es) = elim s.finished [ true ↦ s | false ↦ run (step s e) es ]

-- The rounds of the loop that DeleteTable runs: every round waits on a new time.After, and an error
-- is logged only.
unfoldable pub delete_step : Loop → Event → Loop
unfolding on_count
delete_step s (response e) = record s {
  responses = suc s.responses;
  active = true;
  finished = eqb_ℤ s.requests (pos (suc s.responses));
}
delete_step s (count n) = on_count s n
delete_step s tick =
    if not s.active then record s { finished = true } else record s { active = false }

unfoldable pub delete_run : Loop → List Event → Loop
unfolding delete_step
delete_run s [] = s
delete_run s (e ∷ es) = elim s.finished [ true ↦ s | false ↦ delete_run (delete_step s e) es ]
