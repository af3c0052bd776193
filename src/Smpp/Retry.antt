-- ===== src/Smpp/Retry.antt =====
-- How often and how long a message is repeated.
pub mod Jobs
use mathlib.Core.Path.{subst}
use push1st.Prelude.{
  Option-cases, Bytes, Bool-cases, ap, ◌&&◌, arith, ◌+◌, if◌then◌else◌, ◌≤◌, ◌<◌, ◌==◌, Bool, ◌≡◌,
  List, refl, [], ◌∷◌, inl, inr, true, false, ℕ, suc,
}
use push1st.Channel.Table.{find}
use push1st.Smpp.Service.{
  Chunk, Service, num_of_retries, set, send_chunk, clean, Verdict, stay, leave, resend, verdict,
  collect, run_retry, accepted, reported, Event, sent, collected, retried, answered, receipt,
  handle,
}

-- Whether an event decides to send this message again.
unfoldable pub is_resend : ℕ → Event → Service → Bool
is_resend h (collected now g) s =
    (g == h) && elim (verdict now (s.chunks g)) [ resend ↦ true | _ ↦ false ]
is_resend h _ s = false

-- How often the events send a message again.
abbrev pub resends : ℕ → List Event → Service → ℕ
resends h [] s = 0
resends h (e ∷ es) s =
    let rest = resends h es (handle e s) in if is_resend h e s then suc rest else rest

-- Only a collection that decides to send a message again counts up its retries.
retry_num-collect :
    (h now g : ℕ) (s : Service) (v : Verdict)
    → verdict now (s.chunks g) ≡ v
    → ((collect now g s).chunks h).retry_num ≡ (
        if is_resend h (collected now g) s
        then suc ((s.chunks h).retry_num)
        else (s.chunks h).retry_num)
unfolding collect is_resend clean set
retry_num-collect h now g s stay e = rw (e, collect, is_resend) (ground arith)
retry_num-collect h now g s leave e = rw (e, collect, is_resend) (ground arith)
retry_num-collect h now g s resend e = rw (e, collect, is_resend) (ground arith)

pub chunks-send_chunk : (ok : Bool) (g : ℕ) (s : Service) → (send_chunk ok g s).chunks ≡ s.chunks
unfolding send_chunk
chunks-send_chunk true g s = refl
chunks-send_chunk false g s = refl

pub chunks-run_retry :
    (ok : Bool) (s : Service) (jobs : List ℕ) → s.jobs ≡ jobs → (run_retry ok s).chunks ≡ s.chunks
unfolding run_retry
chunks-run_retry ok s [] e = rw (e, run_retry) refl
chunks-run_retry ok s (g ∷ jobs) e =
    rw (e, run_retry) (chunks-send_chunk ok g (record s { jobs = jobs }))

pub chunks-accepted : (seq : ℕ) (uid : Bytes) (s : Service) → (accepted seq uid s).chunks ≡ s.chunks
unfolding accepted
chunks-accepted seq uid s = elim (Option-cases (s.pending seq)) [
  | inl n ↦ rw (n, accepted) refl
  | inr (g, f) ↦ rw (f, accepted) refl
]

retry_num-reported :
    (h : ℕ) (uid : Bytes) (delivered : Bool) (s : Service)
    → ((reported uid delivered s).chunks h).retry_num ≡ (s.chunks h).retry_num
unfolding reported set
retry_num-reported h uid delivered s = elim (Option-cases (find uid s.acks)) [
  | inl n ↦ rw (n, reported) refl
  | inr (g, f) ↦ rw (f, reported) (ground arith)
]

pub retry_num-handle :
    (h : ℕ) (e : Event) (s : Service)
    → ((handle e s).chunks h).retry_num
      ≡ (if is_resend h e s then suc ((s.chunks h).retry_num) else (s.chunks h).retry_num)
unfolding handle is_resend
retry_num-handle h (sent ok g) s = ap (λ c. (c h).retry_num) (chunks-send_chunk ok g s)
retry_num-handle h (collected now g) s = retry_num-collect h now g s _ refl
retry_num-handle h (retried ok) s = ap (λ c. (c h).retry_num) (chunks-run_retry ok s s.jobs refl)
retry_num-handle h (answered seq uid) s = ap (λ c. (c h).retry_num) (chunks-accepted seq uid s)
retry_num-handle h (receipt uid delivered) s = retry_num-reported h uid delivered s

resend-retry_num : (now : ℕ) (c : Chunk) → verdict now c ≡ resend → c.retry_num < 3
unfolding verdict
resend-retry_num now c e = ground arith

pub is_resend-collected :
    (h now g : ℕ) (s : Service) (v : Verdict)
    → verdict now (s.chunks g) ≡ v
    → is_resend h (collected now g) s ≡ true
    → (g ≡ h) × (v ≡ resend)
unfolding is_resend
is_resend-collected h now g s stay e r = absurd (ground arith)
is_resend-collected h now g s leave e r = absurd (ground arith)
is_resend-collected h now g s resend e r = ground arith

is_resend_bound :
    (h : ℕ) (e : Event) (s : Service) → is_resend h e s ≡ true → (s.chunks h).retry_num < 3
is_resend_bound h (collected now g) s r =
    let (same, again) = is_resend-collected h now g s _ refl r in
    subst (λ j. (s.chunks j).retry_num < 3) same (resend-retry_num now (s.chunks g) again)
is_resend_bound h (sent ok g) s r = absurd (unfold is_resend in cc)
is_resend_bound h (retried ok) s r = absurd (unfold is_resend in cc)
is_resend_bound h (answered seq uid) s r = absurd (unfold is_resend in cc)
is_resend_bound h (receipt uid delivered) s r = absurd (unfold is_resend in cc)

-- Whatever happens, and in whatever order, a message for which it was decided at most three times to
-- send it again is decided on at most three times in all.
pub resends_bound :
    (h : ℕ) (es : List Event) (s : Service)
    → (s.chunks h).retry_num ≤ num_of_retries
    → resends h es s + (s.chunks h).retry_num ≤ num_of_retries
resends_bound h [] s b = omega (arith, b)
resends_bound h (e ∷ es) s b = elim (Bool-cases (is_resend h e s)) [
  | inl again ↦
      let n : ((handle e s).chunks h).retry_num ≡ suc ((s.chunks h).retry_num) =
        rw again at (retry_num-handle h e s) in
      let low = is_resend_bound h e s again in
      rw again (omega (arith, n, low, resends_bound h es (handle e s) (omega (arith, n, low))))
  | inr other ↦
      let n : ((handle e s).chunks h).retry_num ≡ (s.chunks h).retry_num =
        rw other at (retry_num-handle h e s) in
      rw other (omega (arith, n, resends_bound h es (handle e s) (omega (arith, n, b))))
]
