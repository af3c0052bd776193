-- ===== src/Smpp/Rate.antt =====
-- The order and the spacing of the jobs, and the bound of the queue.
use mathlib.Core.List.{List, append-nil, append_assoc}
use mathlib.Core.Path.{subst}
use push1st.Prelude.{
  sym, ◌⊎◌, ◌++◌, length, ltb, ap, ◌∙◌, arith, ◌+◌, ◌≡◌, if◌then◌else◌, Bool-cases, ◌≤◌, Bool, refl,
  [], ◌∷◌, inl, inr, ℕ, suc, length-append,
}
use push1st.Smpp.RateLimiter.{
  Limiter, enqueue, Started, start_of, due_after, run_job, Event, enqueued, ran, execute,
}

-- No job starts before it is due: the first at a given time, and each further one an interval after
-- the start before it, or right after it if that one was skipped.
abbrev pub Spaced : ℕ → ℕ → List Started → Type 0
Spaced interval due [] = Unit
Spaced interval due (s ∷ ss) =
    (due ≤ s.start) × Spaced interval (if s.skip then s.start else s.start + interval) ss

abbrev pub jobs : List Started → List ℕ
jobs [] = []
jobs (s ∷ ss) = s.job ∷ jobs ss

due_lem :
    (interval now due : ℕ) (skip : Bool)
    → (due ≤ start_of now due)
      × (due_after interval due skip (start_of now due)
          ≡ (if skip then start_of now due else start_of now due + interval))
unfolding start_of due_after
due_lem interval now due skip = ground arith

List-cases : (xs : List ℕ) → (xs ≡ []) ⊎ ((x : ℕ) × (rest : List ℕ) × (xs ≡ x ∷ rest))
List-cases [] = inl refl
List-cases (x ∷ rest) = inr (x, rest, refl)

-- The limiter after a round that leaves these jobs.
abbrev after : ℕ → Bool → List ℕ → Limiter → Limiter
after now skip rest l = record l {
  queue = rest;
  next_due = due_after l.interval l.next_due skip (start_of now l.next_due);
}

-- Whatever is enqueued when, the jobs start no earlier than the rate allows.
pub execute-Spaced :
    (es : List Event) (l : Limiter) → Spaced l.interval l.next_due (execute es l).started
unfolding execute enqueue run_job
execute-Spaced [] l = tt
execute-Spaced (enqueued job ∷ es) l = elim (Bool-cases (ltb l.max_queue (length l.queue))) [
  | inl full ↦ rw (full, execute) (execute-Spaced es l)
  | inr room ↦ rw (room, execute) (execute-Spaced es (record l { queue = l.queue ++ job ∷ [] }))
]
execute-Spaced (ran now skip ∷ es) l = elim (List-cases l.queue) [
  | inl e ↦ rw (e, execute) (execute-Spaced es l)
  | inr (job, rest, e) ↦
      let (due, next) = due_lem l.interval now l.next_due skip in
      rw (e, execute)
        (
          due,
          subst (λ d. Spaced l.interval d (execute es (after now skip rest l)).started) next
              (execute-Spaced es (after now skip rest l)),
        )
]

-- The jobs that ran and those still waiting are the ones that waited and those accepted, in order.
pub execute_order :
    (es : List Event) (l : Limiter)
    → jobs (execute es l).started ++ (execute es l).last.queue ≡ l.queue ++ (execute es l).accepted
unfolding execute enqueue run_job
execute_order [] l = sym (append-nil l.queue)
execute_order (enqueued job ∷ es) l = elim (Bool-cases (ltb l.max_queue (length l.queue))) [
  | inl full ↦ rw (full, execute) (execute_order es l)
  | inr room ↦
      rw (room, execute)
        (execute_order es (record l { queue = l.queue ++ job ∷ [] })
          ∙ append_assoc l.queue (job ∷ [])
              (execute es (record l { queue = l.queue ++ job ∷ [] })).accepted)
]
execute_order (ran now skip ∷ es) l = elim (List-cases l.queue) [
  | inl e ↦ rw (e, execute) (execute_order es l ∙ ap (λ q. q ++ (execute es l).accepted) e)
  | inr (job, rest, e) ↦
      rw (e, execute) (ap (λ t. job ∷ t) (execute_order es (after now skip rest l)))
]

-- The queue never holds more than one job above its limit.
pub execute_bound :
    (es : List Event) (l : Limiter)
    → length l.queue ≤ suc l.max_queue
    → length (execute es l).last.queue ≤ suc l.max_queue
unfolding execute enqueue run_job
execute_bound [] l h = h
execute_bound (enqueued job ∷ es) l h = elim (Bool-cases (ltb l.max_queue (length l.queue))) [
  | inl full ↦ rw (full, execute) (execute_bound es l h)
  | inr room ↦
      rw (room, execute)
        (execute_bound es (record l { queue = l.queue ++ job ∷ [] })
          (ground (arith, length-append l.queue (job ∷ []))))
]
execute_bound (ran now skip ∷ es) l h = elim (List-cases l.queue) [
  | inl e ↦ rw (e, execute) (execute_bound es l h)
  | inr (job, rest, e) ↦
      rw (e, execute) (execute_bound es (after now skip rest l) (ground (arith, rw e at h)))
]
