-- ===== src/Smpp/Delivered.antt =====
-- A message that is delivered is not repeated, and one that is not leaves the collector.
use mathlib.Core.Path.{subst}
use push1st.Prelude.{
  ◌⊎◌, bytes_eq_iff, sym, ◌∙◌, inl, false, inr, suc, arith, ◌&&◌, true, ◌≤◌, if◌then◌else◌, ◌+◌,
  ◌==◌, ◌∷◌, Bool, ltb, List, ◌≡◌, ℕ,
}
use push1st.Prelude.{
  ltb, Option-cases, Bytes, Bool-cases, ap, ◌&&◌, arith, ◌+◌, if◌then◌else◌, ◌≤◌, ◌==◌, Bool, ◌≡◌,
  List, refl, [], ◌∷◌, none, some, inl, inr, true, false, ℕ, suc,
}
use push1st.Channel.Table.{find-emplace, find}
use push1st.Smpp.Service.{
  Chunk, Service, num_of_retries, retry_interval, set, emplace_pending, send_chunk, clean, Verdict,
  stay, leave, resend, verdict, collect, accepted, reported, Event, sent, collected, retried,
  answered, receipt, handle,
}
use push1st.Smpp.Retry.Jobs.{
  waiting, after, runs, runs-after, runs-resends, jobs-send_chunk, jobs-accepted, jobs-reported,
}
use push1st.Smpp.Retry.{
  is_resend-collected, is_resend, resends, resends_bound, chunks-send_chunk, chunks-run_retry,
  chunks-accepted,
}

-- How many of the events let the message go for good.
unfoldable pub is_leave : ℕ → Event → Service → Bool
is_leave h (collected now g) s =
    (g == h) && elim (verdict now (s.chunks g)) [ leave ↦ true | _ ↦ false ]
is_leave h _ s = false

abbrev pub leaves : ℕ → List Event → Service → ℕ
leaves h [] s = 0
leaves h (e ∷ es) s =
    let rest = leaves h es (handle e s) in if is_leave h e s then suc rest else rest

-- Whether an event is a collection of this message after the interval since it was last sent.
unfoldable pub is_due : ℕ → Event → Service → Bool
is_due h (collected now g) s = (g == h) && ltb ((s.chunks h).last_seen + retry_interval) now
is_due h _ s = false

-- How many of the events are.
abbrev pub collections : ℕ → List Event → Service → ℕ
collections h [] s = 0
collections h (e ∷ es) s =
    let rest = collections h es (handle e s) in if is_due h e s then suc rest else rest

verdict_due :
    (now : ℕ) (c : Chunk) → ltb (c.last_seen + retry_interval) now ≡ true → ¬ (verdict now c ≡ stay)
unfolding verdict
verdict_due now c h e = ground arith

-- A collection of this message that is due lets it go or sends it again.
counted :
    (h now g : ℕ) (s : Service) (v : Verdict)
    → verdict now (s.chunks g) ≡ v
    → is_due h (collected now g) s ≡ true
    → (is_resend h (collected now g) s ≡ true) ⊎ (is_leave h (collected now g) s ≡ true)
unfolding is_resend is_leave is_due
counted h now g s stay e d =
    let same : g ≡ h = ground arith in
    let late : ltb ((s.chunks h).last_seen + retry_interval) now ≡ true = ground arith in
    absurd (
      verdict_due now (s.chunks g)
        (subst (λ j. ltb ((s.chunks j).last_seen + retry_interval) now ≡ true) (sym same) late) e)
counted h now g s leave e d = inr (rw (e, is_leave) (ground arith))
counted h now g s resend e d = inl (rw (e, is_resend) (ground arith))

due_cases :
    (h : ℕ) (e : Event) (s : Service)
    → is_due h e s ≡ true
    → (is_resend h e s ≡ true) ⊎ (is_leave h e s ≡ true)
due_cases h (collected now g) s d = counted h now g s _ refl d
due_cases h (sent ok g) s d = absurd (unfold is_due in cc)
due_cases h (retried ok) s d = absurd (unfold is_due in cc)
due_cases h (answered seq uid) s d = absurd (unfold is_due in cc)
due_cases h (receipt uid delivered) s d = absurd (unfold is_due in cc)

collections_bound :
    (h : ℕ) (es : List Event) (s : Service) → collections h es s ≤ resends h es s + leaves h es s
collections_bound h [] s = omega arith
collections_bound h (e ∷ es) s = elim (Bool-cases (is_due h e s)) [
  | inr early ↦ ground (arith, collections_bound h es (handle e s), early)
  | inl due ↦ elim (due_cases h e s due) [
    | inl r ↦ ground (arith, collections_bound h es (handle e s), due, r)
    | inr l ↦ ground (arith, collections_bound h es (handle e s), due, l)
  ]
]

-- A message does not stay with the collector for ever, however often it is collected early, and
-- whatever else happens in between: if it was counted at most three times as sent again, all of its
-- collections after the interval since it was last sent, but three less the retries counted before,
-- let it go for good. And each retry that is counted is one job, which runs once or still waits.
pub leaves_lem :
    (h : ℕ) (es : List Event) (s : Service)
    → (s.chunks h).retry_num ≤ num_of_retries
    → (collections h es s + (s.chunks h).retry_num ≤ leaves h es s + num_of_retries)
      × (waiting h (after es s).jobs + runs h es s + (s.chunks h).retry_num
          ≡ waiting h s.jobs + ((after es s).chunks h).retry_num)
leaves_lem h es s b =
    (omega (arith, resends_bound h es s b, collections_bound h es s), runs-after h es s)

finished-collect :
    (h now g : ℕ) (s : Service) (v : Verdict)
    → verdict now (s.chunks g) ≡ v
    → ((collect now g s).chunks h).finished ≡ (s.chunks h).finished
unfolding collect clean set
finished-collect h now g s stay e = rw (e, collect) (ground arith)
finished-collect h now g s leave e = rw (e, collect) (ground arith)
finished-collect h now g s resend e = rw (e, collect) (ground arith)

finished-reported :
    (h : ℕ) (uid : Bytes) (delivered : Bool) (s : Service)
    → (s.chunks h).finished ≡ true
    → ((reported uid delivered s).chunks h).finished ≡ true
unfolding reported set
finished-reported h uid delivered s f = elim (Option-cases (find uid s.acks)) [
  | inl n ↦ rw (n, reported) f
  | inr (g, k) ↦ rw (k, reported) (ground arith)
]

finished-handle :
    (h : ℕ) (e : Event) (s : Service)
    → (s.chunks h).finished ≡ true
    → ((handle e s).chunks h).finished ≡ true
unfolding handle
finished-handle h (sent ok g) s f = ap (λ c. (c h).finished) (chunks-send_chunk ok g s) ∙ f
finished-handle h (collected now g) s f = finished-collect h now g s _ refl ∙ f
finished-handle h (retried ok) s f =
    ap (λ c. (c h).finished) (chunks-run_retry ok s s.jobs refl) ∙ f
finished-handle h (answered seq uid) s f = ap (λ c. (c h).finished) (chunks-accepted seq uid s) ∙ f
finished-handle h (receipt uid delivered) s f = finished-reported h uid delivered s f

resend-finished : (now : ℕ) (c : Chunk) → verdict now c ≡ resend → c.finished ≡ false
unfolding verdict
resend-finished now c e = ground arith

finished-is_resend :
    (h : ℕ) (e : Event) (s : Service) → (s.chunks h).finished ≡ true → is_resend h e s ≡ false
finished-is_resend h (collected now g) s f = elim (Bool-cases (is_resend h (collected now g) s)) [
  | inr other ↦ other
  | inl again ↦
      let (same, r) = is_resend-collected h now g s _ refl again in
      let still : (s.chunks h).finished ≡ false =
        subst (λ j. (s.chunks j).finished ≡ false) same (resend-finished now (s.chunks g) r) in
      absurd (ground (arith, f, still))
]
finished-is_resend h (sent ok g) s f = unfold is_resend in refl
finished-is_resend h (retried ok) s f = unfold is_resend in refl
finished-is_resend h (answered seq uid) s f = unfold is_resend in refl
finished-is_resend h (receipt uid delivered) s f = unfold is_resend in refl

finished-resends :
    (h : ℕ) (es : List Event) (s : Service) → (s.chunks h).finished ≡ true → resends h es s ≡ 0
finished-resends h [] s f = refl
finished-resends h (e ∷ es) s f =
    rw (finished-is_resend h e s f) (finished-resends h es (handle e s) (finished-handle h e s f))

finished_reported :
    (uid : Bytes) (h : ℕ) (s : Service)
    → find uid s.acks ≡ some h
    → ((reported uid true s).chunks h).finished ≡ true
unfolding reported set
finished_reported uid h s f = rw (f, reported) (ground arith)

-- After a receipt, no job for a message runs that was finished, unless it waited already.
runs-reported :
    (h : ℕ) (uid : Bytes) (s : Service) (es : List Event)
    → s.pending (s.chunks h).sequence ≡ none
    → find uid s.acks ≡ none
    → waiting h s.jobs ≡ 0
    → resends h es (reported uid true (accepted (s.chunks h).sequence uid (send_chunk true h s)))
      ≡ 0
    → runs h es (reported uid true (accepted (s.chunks h).sequence uid (send_chunk true h s))) ≡ 0
runs-reported h uid s es p u w r =
    let t = accepted (s.chunks h).sequence uid (send_chunk true h s) in
    let jobs : (reported uid true t).jobs ≡ s.jobs =
      jobs-reported uid true t
      ∙ jobs-accepted (s.chunks h).sequence uid (send_chunk true h s)
      ∙ jobs-send_chunk true h s in
    omega (arith, runs-resends h es (reported uid true t), ap (waiting h) jobs, w, r)

acks-accepted_sent :
    (h : ℕ) (uid : Bytes) (s : Service)
    → s.pending (s.chunks h).sequence ≡ none
    → find uid s.acks ≡ none
    → find uid (accepted (s.chunks h).sequence uid (send_chunk true h s)).acks ≡ some h
unfolding accepted send_chunk emplace_pending set
acks-accepted_sent h uid s p u =
    let there : (send_chunk true h s).pending (s.chunks h).sequence ≡ some h =
      rw (p, send_chunk, emplace_pending) (ground arith) in
    rw (there, accepted) (ground (arith, find-emplace uid uid h s.acks, bytes_eq_iff uid uid))

-- A message that the gateway takes, answers under a name that no other message has, and reports as
-- delivered, is never decided on again, whatever happens afterwards, provided that no other message
-- waits for an answer under its sequence number; and no job hands it to a gateway again, provided that
-- none was waiting.
pub delivered_lem :
    (h : ℕ) (uid : Bytes) (s : Service) (es : List Event)
    → s.pending (s.chunks h).sequence ≡ none
    → find uid s.acks ≡ none
    → waiting h s.jobs ≡ 0
    → let v = reported uid true (accepted (s.chunks h).sequence uid (send_chunk true h s)) in
      (resends h es v ≡ 0) × (runs h es v ≡ 0)
delivered_lem h uid s es p u w =
    let t = accepted (s.chunks h).sequence uid (send_chunk true h s) in
    let none_left =
      finished-resends h es (reported uid true t)
        (finished_reported uid h t (acks-accepted_sent h uid s p u)) in
    (none_left, runs-reported h uid s es p u w none_left)
