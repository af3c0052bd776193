-- ===== src/Smpp/Retry/Jobs.antt =====
-- The jobs that send a message again: how many wait and how many run.
use push1st.Prelude.{
  ap, ◌∙◌, Option-cases, Bytes, arith, ◌+◌, if◌then◌else◌, ◌≤◌, ◌==◌, Bool, ◌≡◌, List, refl, [],
  ◌∷◌, ◌++◌, inl, inr, true, false, ℕ, suc,
}
use push1st.Channel.Table.{find}
use push1st.Smpp.Service.{
  Service, num_of_retries, send_chunk, clean, Verdict, stay, leave, resend, verdict, collect,
  run_retry, accepted, reported, Event, sent, collected, retried, answered, receipt, handle,
}
use push1st.Smpp.Retry.{is_resend, resends, resends_bound, retry_num-handle}

-- How many jobs of a queue are for this message.
abbrev pub waiting : ℕ → List ℕ → ℕ
waiting h [] = 0
waiting h (g ∷ jobs) = let rest = waiting h jobs in if g == h then suc rest else rest

-- Whether an event runs a job that sends this message.
abbrev pub takes : ℕ → List ℕ → Bool
takes h [] = false
takes h (g ∷ jobs) = g == h

unfoldable pub runs_job : ℕ → Event → Service → Bool
runs_job h (retried ok) s = takes h s.jobs
runs_job h _ s = false

-- How often the events hand this message to a gateway again.
abbrev pub runs : ℕ → List Event → Service → ℕ
runs h [] s = 0
runs h (e ∷ es) s = let rest = runs h es (handle e s) in if runs_job h e s then suc rest else rest

waiting-append :
    (h g : ℕ) (jobs : List ℕ)
    → waiting h (jobs ++ g ∷ []) ≡ waiting h jobs + (if g == h then 1 else 0)
waiting-append h g [] = ground arith
waiting-append h g (j ∷ jobs) = ground (arith, waiting-append h g jobs)

pub jobs-send_chunk : (ok : Bool) (g : ℕ) (s : Service) → (send_chunk ok g s).jobs ≡ s.jobs
unfolding send_chunk
jobs-send_chunk true g s = refl
jobs-send_chunk false g s = refl

pub jobs-accepted : (seq : ℕ) (uid : Bytes) (s : Service) → (accepted seq uid s).jobs ≡ s.jobs
unfolding accepted
jobs-accepted seq uid s = elim (Option-cases (s.pending seq)) [
  | inl n ↦ rw (n, accepted) refl
  | inr (g, f) ↦ rw (f, accepted) refl
]

pub jobs-reported : (uid : Bytes) (ok : Bool) (s : Service) → (reported uid ok s).jobs ≡ s.jobs
unfolding reported
jobs-reported uid ok s = elim (Option-cases (find uid s.acks)) [
  | inl n ↦ rw (n, reported) refl
  | inr (g, f) ↦ rw (f, reported) (ground arith)
]

waiting-collect :
    (h now g : ℕ) (s : Service) (v : Verdict)
    → verdict now (s.chunks g) ≡ v
    → waiting h (collect now g s).jobs
      ≡ waiting h s.jobs + (if is_resend h (collected now g) s then 1 else 0)
unfolding collect is_resend clean
waiting-collect h now g s stay e = rw (e, collect, is_resend) (ground arith)
waiting-collect h now g s leave e = rw (e, collect, is_resend) (ground arith)
waiting-collect h now g s resend e =
    rw (e, collect, is_resend) (waiting-append h g s.jobs ∙ ground arith)

waiting-run_retry :
    (h : ℕ) (ok : Bool) (s : Service) (jobs : List ℕ)
    → s.jobs ≡ jobs
    → waiting h (run_retry ok s).jobs + (if takes h s.jobs then 1 else 0) ≡ waiting h s.jobs
unfolding run_retry
waiting-run_retry h ok s [] e = rw (e, run_retry) (rw e refl)
waiting-run_retry h ok s (g ∷ jobs) e =
    rw (e, run_retry) (rw (jobs-send_chunk ok g (record s { jobs = jobs })) (ground arith))

-- Each event adds the job that it decides on, and takes the one that it runs.
waiting-handle :
    (h : ℕ) (e : Event) (s : Service)
    → waiting h (handle e s).jobs + (if runs_job h e s then 1 else 0)
      ≡ waiting h s.jobs + (if is_resend h e s then 1 else 0)
unfolding handle is_resend runs_job
waiting-handle h (sent ok g) s = omega (arith, ap (waiting h) (jobs-send_chunk ok g s))
waiting-handle h (collected now g) s = omega (arith, waiting-collect h now g s _ refl)
waiting-handle h (retried ok) s = omega (arith, waiting-run_retry h ok s s.jobs refl)
waiting-handle h (answered seq uid) s = omega (arith, ap (waiting h) (jobs-accepted seq uid s))
waiting-handle h (receipt uid ok) s = omega (arith, ap (waiting h) (jobs-reported uid ok s))

-- The service after the events.
abbrev pub after : List Event → Service → Service
after [] s = s
after (e ∷ es) s = after es (handle e s)

-- A retry that was counted is one job, which runs once or still waits.
pub runs-after :
    (h : ℕ) (es : List Event) (s : Service)
    → waiting h (after es s).jobs + runs h es s + (s.chunks h).retry_num
      ≡ waiting h s.jobs + ((after es s).chunks h).retry_num
runs-after h [] s = omega arith
runs-after h (e ∷ es) s =
    ground (arith, waiting-handle h e s, retry_num-handle h e s, runs-after h es (handle e s))

-- No more jobs run than wait at first and are decided on.
pub runs-resends :
    (h : ℕ) (es : List Event) (s : Service) → runs h es s ≤ waiting h s.jobs + resends h es s
runs-resends h [] s = omega arith
runs-resends h (e ∷ es) s = ground (arith, waiting-handle h e s, runs-resends h es (handle e s))

-- A message that was not decided to be sent again more than three times is handed to a gateway again,
-- whatever happens and in whatever order, at most by the jobs for it that wait at first and by three
-- more, less the decisions before.
pub runs_bound :
    (h : ℕ) (es : List Event) (s : Service)
    → (s.chunks h).retry_num ≤ num_of_retries
    → runs h es s + (s.chunks h).retry_num ≤ waiting h s.jobs + num_of_retries
runs_bound h es s b = omega (arith, runs-resends h es s, resends_bound h es s b)
