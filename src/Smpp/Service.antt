-- ===== src/Smpp/Service.antt =====
-- csmppservice and cackmsg: the messages on their way, their acknowledgements and their repetition.
-- A message is the number of its object, and a time is a number of seconds.
use push1st.Prelude.{
  ltb, ◌==◌, ◌+◌, leb, Option, Bytes, List, Bool, if◌then◌else◌, [], ◌∷◌, none, some, true, false,
  ℕ, ◌++◌,
}
use push1st.Channel.Table.{find, emplace, erase}

-- What a cackmsg holds besides its text and its addresses.
pub record Chunk : Type 0 where
  pub sequence : ℕ
  pub finished : Bool
  pub last_seen : ℕ
  pub retry_num : ℕ

-- pendingMsgQueue, ackMsgQueue and retryMsgs, and the jobs of retryQueue that send a message again.
pub record Service : Type 0 where
  pub chunks : ℕ → Chunk
  pub pending : ℕ → Option ℕ
  pub acks : List (Bytes × ℕ)
  pub retry_msgs : ℕ → Bool
  pub jobs : List ℕ

abbrev pub num_of_retries : ℕ
num_of_retries = 3

abbrev pub retry_interval : ℕ
retry_interval = 20

-- A map with the value at one key replaced.
unfoldable pub set {ℓ} : {A : Type ℓ} → ℕ → A → (ℕ → A) → ℕ → A
set k v m j = if j == k then v else m j

-- `emplace` of pendingMsgQueue leaves the entry of a sequence number that is there.
unfoldable pub emplace_pending : ℕ → ℕ → (ℕ → Option ℕ) → ℕ → Option ℕ
emplace_pending seq h p = elim (p seq) [ none ↦ set seq (some h) p | some g ↦ p ]

-- SendChunk, where `sent` says whether the gateway took the message.
unfoldable pub send_chunk : Bool → ℕ → Service → Service
send_chunk true h s = record s { pending = emplace_pending (s.chunks h).sequence h s.pending }
send_chunk false h s = record s { retry_msgs = set h true s.retry_msgs }

-- The first message that is acknowledged under a sequence number is erased.
unfoldable pub erase_ack : (ℕ → Chunk) → ℕ → List (Bytes × ℕ) → List (Bytes × ℕ)
erase_ack chunks seq [] = []
erase_ack chunks seq ((uid, h) ∷ acks) =
    let rest = erase_ack chunks seq acks in
    if (chunks h).sequence == seq then acks else (uid, h) ∷ rest

-- `clean` of IsLeaveUs.
unfoldable pub clean : ℕ → Service → Service
clean h s = record s {
  retry_msgs = set h false s.retry_msgs;
  pending = set (s.chunks h).sequence none s.pending;
  acks = erase_ack s.chunks (s.chunks h).sequence s.acks;
}

-- What IsLeaveUs decides: the message stays with the collector, leaves it for good, or leaves it and
-- will be sent again.
pub data Verdict : Type 0 where
  stay leave resend : Verdict

-- The conditions of IsLeaveUs, where the service is still there.
unfoldable pub verdict : ℕ → Chunk → Verdict
verdict now c =
    if c.finished
    then leave
    else if leb now (c.last_seen + retry_interval)
    then stay
    else if ltb num_of_retries (c.retry_num + 1)
    then leave
    else resend

-- IsLeaveUs
unfoldable pub collect : ℕ → ℕ → Service → Service
collect now h s = elim (verdict now (s.chunks h)) [
  | stay ↦ s
  | leave ↦ if (s.chunks h).finished then s else clean h s
  | resend ↦
      let t = clean h s in
      record t {
        chunks =
            set h (record (s.chunks h) { last_seen = now; retry_num = (s.chunks h).retry_num + 1 })
              s.chunks;
        jobs = t.jobs ++ h ∷ [];
      }
]

-- A job of retryQueue.
unfoldable pub run_retry : Bool → Service → Service
run_retry sent s = elim s.jobs [ [] ↦ s | h ∷ jobs ↦ send_chunk sent h (record s { jobs = jobs }) ]

-- The answer to a message, csms::resp_id in OnDeliveryStatus.
unfoldable pub accepted : ℕ → Bytes → Service → Service
accepted seq uid s = elim (s.pending seq) [
  | none ↦ s
  | some h ↦ record s { acks = emplace uid h s.acks; pending = set seq none s.pending }
]

-- A delivery receipt, cdelivery::id in OnDeliveryStatus.
unfoldable pub reported : Bytes → Bool → Service → Service
reported uid delivered s = elim (find uid s.acks) [
  | none ↦ s
  | some h ↦
      let t = record s { acks = erase uid s.acks } in
      if delivered
      then record t { chunks = set h (record (s.chunks h) { finished = true }) s.chunks }
      else record t { retry_msgs = set h true s.retry_msgs }
]

-- What happens to the service, in the order of its locks.
pub data Event : Type 0 where
  sent : Bool → ℕ → Event
  collected : ℕ → ℕ → Event
  retried : Bool → Event
  answered : ℕ → Bytes → Event
  receipt : Bytes → Bool → Event

unfoldable pub handle : Event → Service → Service
handle (sent ok h) s = send_chunk ok h s
handle (collected now h) s = collect now h s
handle (retried ok) s = run_retry ok s
handle (answered seq uid) s = accepted seq uid s
handle (receipt uid delivered) s = reported uid delivered s
