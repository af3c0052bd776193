-- ===== src/Smpp/RateLimiter.antt =====
-- cratelimiter: the queue of jobs and the loop of its worker. Times are nanoseconds, and a job is a
-- number; whether it asks to be skipped is known when it has run.
use push1st.Prelude.{
  ◌++◌, length, ◌+◌, ltb, Option, ◌==◌, List, if◌then◌else◌, ◌/◌, Bool, [], ◌∷◌, none, some, true,
  false, ℕ,
}

pub record Limiter : Type 0 where
  pub interval : ℕ
  pub max_queue : ℕ
  pub queue : List ℕ
  pub next_due : ℕ

-- The constructor, at a time.
unfoldable pub make_limiter : ℕ → ℕ → ℕ → Limiter
make_limiter rps max_queue now = record {
  interval = 1000000000 / (if rps == 0 then 1 else rps);
  max_queue = max_queue;
  queue = [];
  next_due = now;
}

unfoldable pub enqueue : ℕ → Limiter → Bool × Limiter
enqueue job l =
    if ltb l.max_queue (length l.queue)
    then (false, l)
    else (true, record l { queue = l.queue ++ job ∷ [] })

-- A job that ran: when it started, and whether it asked to be skipped.
pub record Started : Type 0 where
  pub job : ℕ
  pub start : ℕ
  pub skip : Bool

-- `if (now < nextDue) { sleep_until(nextDue); now = nextDue; }`
unfoldable pub start_of : ℕ → ℕ → ℕ
start_of now due = if ltb now due then due else now

unfoldable pub due_after : ℕ → ℕ → Bool → ℕ → ℕ
due_after interval due skip start =
    if skip then start else if ltb due start then start + interval else due + interval

-- One round of the inner loop of Run, at a time.
unfoldable pub run_job : ℕ → Bool → Limiter → Option (Started × Limiter)
run_job now skip l = elim l.queue [
  | [] ↦ none
  | job ∷ jobs ↦
      let start = start_of now l.next_due in
      some (
        record { job = job; start = start; skip = skip },
        record l { queue = jobs; next_due = due_after l.interval l.next_due skip start },
      )
]

-- What happens to a limiter, in the order of its mutex: a call of Enqueue, or a round of the worker.
pub data Event : Type 0 where
  enqueued : ℕ → Event
  ran : ℕ → Bool → Event

-- The jobs that were accepted, the jobs that ran, and the limiter in the end.
pub record Trace : Type 0 where
  pub accepted : List ℕ
  pub started : List Started
  pub last : Limiter

unfoldable pub execute : List Event → Limiter → Trace
execute [] l = record { accepted = []; started = []; last = l }
execute (enqueued job ∷ es) l =
    let t = execute es (enqueue job l).1 in
    if (enqueue job l).0 then record t { accepted = job ∷ t.accepted } else t
execute (ran now skip ∷ es) l = elim (run_job now skip l) [
  | none ↦ execute es l
  | some (s, l') ↦ let t = execute es l' in record t { started = s ∷ t.started }
]
