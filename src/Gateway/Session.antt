-- ===== src/Gateway/Session.antt =====
-- The session of one user (internal/gateway/session.go), before its shutdown: a queue of ten requests,
-- filled by Dispatch and drained by the goroutine of runSession. The steps of Dispatch and of the
-- goroutine interleave in any order; a request is a number, and its reply channel holds one reply.
pub mod Answered
use famclaw.Prelude.{
  ℕ, zero, suc, ◌+◌, Bool, true, false, Option, none, some, List, [], ◌∷◌, ◌++◌, ◌==◌, ltb, length,
  if◌then◌else◌,
}

-- `make(chan sessionRequest, 10)`
abbrev pub queue_size : ℕ
queue_size = 10

pub data Outcome : Type 0 where
  processed timed_out : Outcome

pub record Session : Type 0 where
  pub queue : List ℕ
  -- the request that handleRequest is working on
  pub current : Option ℕ
  -- the replies that were sent, the last one first
  pub replies : List (ℕ × Outcome)
  -- the requests that entered the queue, the last one first
  pub accepted : List ℕ

abbrev pub new_session : Session
new_session = record { queue = []; current = none; replies = []; accepted = [] }

-- `case sess.queue <- req`, which is possible if the queue is not full.
unfoldable pub enqueue : ℕ → Session → Session
enqueue r s =
    if ltb (length s.queue) queue_size
    then record s { queue = s.queue ++ (r ∷ []); accepted = r ∷ s.accepted }
    else s

abbrev pub dropped_by : List ℕ → Session → Session
dropped_by [] s = s
dropped_by (r ∷ queue) s = record s { queue = queue; replies = (r, timed_out) ∷ s.replies }

-- `case dropped, ok := <-sess.queue`: the oldest request is answered with an error.
unfoldable pub drop_oldest : Session → Session
drop_oldest s = dropped_by s.queue s

abbrev pub taken_by : Option ℕ → List ℕ → Session → Session
taken_by (some _) queue s = s
taken_by none [] s = s
taken_by none (r ∷ queue) s = record s { queue = queue; current = some r }

-- The goroutine takes a request, if it is idle.
unfoldable pub take_request : Session → Session
take_request s = taken_by s.current s.queue s

abbrev pub finished_by : Option ℕ → Session → Session
finished_by none s = s
finished_by (some r) s = record s { current = none; replies = (r, processed) ∷ s.replies }

-- The end of handleRequest: the reply is sent.
unfoldable pub finish_request : Session → Session
finish_request s = finished_by s.current s

pub data Event : Type 0 where
  enqueues : ℕ → Event
  drops takes finishes : Event

unfoldable pub step : Event → Session → Session
unfolding enqueue drop_oldest take_request finish_request
step (enqueues r) s = enqueue r s
step drops s = drop_oldest s
step takes s = take_request s
step finishes s = finish_request s

unfoldable pub run : List Event → Session → Session
run [] s = s
run (e ∷ events) s = run events (step e s)

-- What the goroutine does if it is left alone, for a number of rounds: it finishes the request that it
-- works on, and takes the next.
unfoldable pub drain : ℕ → Session → Session
unfolding take_request finish_request
drain zero s = s
drain (suc n) s = drain n (finish_request (take_request (finish_request s)))
