-- ===== src/Smpp/Tests.antt =====
-- The service at concrete messages and events.
use push1st.Prelude.{
  replicate, Bytes, codes, none, some, ◌+◌, arith, ◌≤◌, ◌≡◌, List, length, ◌++◌, refl, [], ◌∷◌,
  true, false,
}
use push1st.WebSocket.Wire.{be_bytes}
use push1st.Credentials.Decimal.{positive}
use push1st.Smpp.Pdu.{
  make_command, pack_command, with_length, Address, Body, pack_body, pack_message, pack_sms,
  pack_text, pack_address,
}
use push1st.Smpp.Wire.{command_of, receive, receive-pack_sms}
use push1st.Smpp.Parameters.{IsBody}
use push1st.Smpp.Chunks.{split, split_loop, udh, part_count}
use push1st.Smpp.Receipt.{Key, id_key, sub_key, stat_key, ShortMsg, no_msg}
use push1st.Smpp.Service
use push1st.Smpp.Service.{
  collect, run_retry, clean, set, verdict, erase_ack, emplace_pending, Chunk, Service,
  num_of_retries, handle, sent, answered, collected, retried, receipt, send_chunk,
}
use push1st.Smpp.Retry.{is_resend, resends}
use push1st.Smpp.Retry.Jobs.{waiting, runs, runs_job, after, runs_bound}
use push1st.Smpp.Delivered.{is_leave, is_due, collections, leaves, leaves_lem}
use push1st.Smpp.Replies.{receipt_message}
use push1st.Smpp.Link.{
  LinkEvent, connecting, checked, replied, unreachable, bound, is_leave_us, run_link, make_link,
  silent, last_sign, step_link, ping, seq, close, connect, connect_hosts, renewed,
  is_leave_us-run_link,
}
use push1st.Smpp.RateLimiter.{
  Limiter, make_limiter, enqueue, run_job, start_of, due_after, Event, enqueued, ran, execute,
}
use push1st.Smpp.Rate.{Spaced, jobs, execute-Spaced}

-- Two jobs a second, and one in the queue.
abbrev limiter : Limiter
limiter = record { interval = 500000000; max_queue = 1; queue = []; next_due = 1000 }

makes : make_limiter 2 1 1000 ≡ limiter
unfolding make_limiter
makes = refl

abbrev events : List Event
events = enqueued 7 ∷ enqueued 8 ∷ enqueued 9 ∷ ran 5000 false ∷ ran 6000 true ∷ ran 7000 false ∷ []

-- Two jobs wait, although the limit is one; the third is refused.
program_runs :
    (jobs (execute events limiter).started ≡ 7 ∷ 8 ∷ [])
    × ((execute events limiter).accepted ≡ 7 ∷ 8 ∷ [])
unfolding execute enqueue run_job start_of due_after
program_runs = (refl, refl)

execute-Spaced_example : Spaced 500000000 1000 (execute events limiter).started
execute-Spaced_example = execute-Spaced events limiter

abbrev phone : Address
phone = record { ton = 1; npi = 1; address = codes "79001234567" }

abbrev body : Body
body = record {
  service = [];
  src = phone;
  dst = phone;
  esm = 0;
  proto = 0;
  priority = 0;
  delivery_time = [];
  valid_period = [];
  registered_delivery = 1;
  replace = 0;
  encoding = 8;
}

body-IsBody : IsBody body
body-IsBody = ground arith

abbrev hello : Bytes
hello = 0 ∷ 72 ∷ 0 ∷ 105 ∷ []

abbrev sms : Bytes
sms = pack_sms (make_command 4 0 7) (record { body = body; msg_id = 0; message = hello })

length-sms : length sms ≡ 59
unfolding pack_sms make_command with_length pack_command pack_body pack_address pack_text
    pack_message be_bytes
length-sms = refl

receive-pack_sms_example :
    receive (sms ++ 9 ∷ [])
    ≡ some (
      command_of (length sms) 4 0 7,
      record { body = body; predefined = []; message = hello },
      9 ∷ [],
    )
receive-pack_sms_example =
    receive-pack_sms 4 0 7 body hello (9 ∷ []) body-IsBody (omega arith)
      (rw length-sms (ground arith))

abbrev enquiry : Bytes
enquiry = with_length (pack_command (make_command 0x15 0 1) ++ [])

length-enquiry : length enquiry ≡ 16
unfolding with_length pack_command make_command be_bytes
length-enquiry = refl

-- A text of three parts.
abbrev long_text : Bytes
long_text = replicate 300 65

splits : (length (split long_text) ≡ 3) × (part_count long_text ≡ 3)
unfolding split split_loop udh
splits = (refl, refl)

abbrev fields : List (Key × Bytes)
fields = (id_key, codes "42") ∷ (sub_key, codes "001") ∷ (stat_key, codes "DELIVRD") ∷ []

abbrev report_of : ShortMsg
report_of = record no_msg { id = codes "42"; sub = some (positive 1); stat = codes "DELIVRD" }

-- A second word with a colon behind it, in the text of a message.
abbrev quoted : Bytes
quoted = codes "Call Bob: now"

-- A message with number 7, and nothing on its way.
abbrev fresh : Chunk
fresh = record { sequence = 7; finished = false; last_seen = 100; retry_num = 0 }

abbrev service : Service
service = record {
  chunks = λ h. fresh;
  pending = λ seq. none;
  acks = [];
  retry_msgs = λ h. false;
  jobs = [];
}

-- The message is sent four times and never answered.
abbrev silence : List Service.Event
silence =
    sent true 5
    ∷ collected 121 5
    ∷ retried true
    ∷ collected 142 5
    ∷ retried false
    ∷ collected 163 5
    ∷ retried true
    ∷ collected 184 5
    ∷ []

gives_up : (resends 5 silence service ≡ 3) × (leaves 5 silence service ≡ 1)
unfolding is_resend is_leave handle collect send_chunk run_retry clean set verdict erase_ack
    emplace_pending
gives_up = (refl, refl)

runs_bound_example : runs 5 silence service + 0 ≤ 0 + num_of_retries
runs_bound_example = runs_bound 5 silence service (omega arith)

-- Each of the three decisions becomes one run, and four collections are due.
retried_once :
    (runs 5 silence service ≡ 3)
    × (waiting 5 (after silence service).jobs ≡ 0)
    × (collections 5 silence service ≡ 4)
unfolding runs_job is_due handle collect send_chunk run_retry clean set verdict erase_ack
    emplace_pending
retried_once = (refl, refl, refl)

leaves_lem_example :
    (collections 5 silence service + 0 ≤ leaves 5 silence service + num_of_retries)
    × (waiting 5 (after silence service).jobs + runs 5 silence service + 0
        ≡ 0 + ((after silence service).chunks 5).retry_num)
leaves_lem_example = leaves_lem 5 silence service (omega arith)

abbrev receipt_sms : Bytes
receipt_sms = receipt_message 3 body fields (codes "Hi")

-- The second host takes the bind, and answers once.
abbrev link_events : List LinkEvent
link_events =
    connecting 100 true (unreachable ∷ bound true ∷ [])
    ∷ checked 131 131 true true
    ∷ replied 132
    ∷ checked 170 170 true true
    ∷ []

is_leave_us-run_link_example :
    (is_leave_us 193 193 true true (run_link link_events make_link)).0
    ≡ silent 193 (last_sign link_events make_link none)
is_leave_us-run_link_example = is_leave_us-run_link link_events 193 193 true true

given_up : silent 193 (last_sign link_events make_link none) ≡ true
unfolding step_link is_leave_us ping seq close connect connect_hosts renewed
given_up = refl
