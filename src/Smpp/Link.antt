-- ===== src/Smpp/Link.antt =====
-- csmppservice::cgateway: its connection, the enquiries on it, and when the gateway is given up.
use push1st.Prelude.{
  leb, ltb, not, ◌&&◌, ◌+◌, ◌%◌, ◌^◌, arith, ◌∙◌, ◌==◌, ◌≡◌, Bool-cases, if◌then◌else◌, Option,
  Bool, List, refl, [], ◌∷◌, none, some, inl, inr, true, false, ℕ,
}

-- gwSocket, as whether it is open, seqNo, gwPingTime and gwPPTimeout, where 0 means never.
pub record Link : Type 0 where
  pub is_open : Bool
  pub seq_no : ℕ
  pub ping_time : ℕ
  pub timeout : ℕ

abbrev pub ping_interval : ℕ
ping_interval = 30

abbrev pub timeout_interval : ℕ
timeout_interval = 60

abbrev pub make_link : Link
make_link = record { is_open = false; seq_no = 0; ping_time = 0; timeout = 0 }

-- Seq, in 32 bits.
unfoldable pub seq : Link → Link
seq l = record l { seq_no = (l.seq_no + 1) % 2 ^ 32 }

-- Close, without the table of the gateways.
unfoldable pub close : Link → Link
close l = record l { is_open = false }

-- The enquiry of IsLeaveUs; `sent` says whether the gateway took it, and where not, Send closes.
unfoldable pub ping : ℕ → Bool → Link → Link
ping clock sent l =
    let l' = seq (record l { ping_time = clock + ping_interval }) in if sent then l' else close l'

-- IsLeaveUs: whether the gateway is given up, and the link after it. `healthy` says that the socket has
-- no error.
unfoldable pub is_leave_us : ℕ → ℕ → Bool → Bool → Link → Bool × Link
is_leave_us now clock healthy sent l =
    if not (l.timeout == 0) && ltb l.timeout now
    then (true, close l)
    else if (not (l.ping_time == 0) && leb l.ping_time now) && (l.is_open && healthy)
    then (false, ping clock sent l)
    else (false, l)

-- What comes of one host: no connection, no answer to the bind, a refusal of it, or its acceptance, after
-- which an enquiry is sent or not.
pub data Attempt : Type 0 where
  unreachable unanswered refused : Attempt
  bound : Bool → Attempt

-- The loop of Connect over the hosts.
unfoldable pub connect_hosts : ℕ → List Attempt → Link → Bool × Link
connect_hosts clock [] l = (false, l)
connect_hosts clock (unreachable ∷ hosts) l = connect_hosts clock hosts l
connect_hosts clock (unanswered ∷ hosts) l = connect_hosts clock hosts (close (seq l))
connect_hosts clock (refused ∷ hosts) l = connect_hosts clock hosts (close (seq l))
connect_hosts clock (bound sent ∷ hosts) l =
    let l' = record (seq (seq l)) {
      is_open = true;
      ping_time = clock + ping_interval;
      timeout = clock + timeout_interval;
    } in
    (sent, if sent then l' else close l')

-- Connect
unfoldable pub connect : ℕ → Bool → List Attempt → Link → Bool × Link
connect clock healthy hosts l =
    if l.is_open && healthy
    then (true, l)
    else connect_hosts clock hosts (record l { is_open = false; ping_time = 0 })

-- The replies to an enquiry and the enquiries of the gateway, cases of OnDeliveryStatus.
unfoldable pub renewed : ℕ → Link → Link
renewed clock l = record l { timeout = clock + timeout_interval }

-- What happens to a link.
pub data LinkEvent : Type 0 where
  checked : ℕ → ℕ → Bool → Bool → LinkEvent
  replied : ℕ → LinkEvent
  connecting : ℕ → Bool → List Attempt → LinkEvent

unfoldable pub step_link : LinkEvent → Link → Link
step_link (checked now clock healthy sent) l = (is_leave_us now clock healthy sent l).1
step_link (replied clock) l = renewed clock l
step_link (connecting clock healthy hosts) l = (connect clock healthy hosts l).1

unfoldable pub run_link : List LinkEvent → Link → Link
run_link [] l = l
run_link (e ∷ es) l = run_link es (step_link e l)

-- Whether a host accepts the bind.
abbrev pub accepts_bind : List Attempt → Bool
accepts_bind [] = false
accepts_bind (bound sent ∷ hosts) = true
accepts_bind (_ ∷ hosts) = accepts_bind hosts

-- The time of the last sign of life: an accepted bind, an enquiry or an answer to one.
abbrev pub sign : LinkEvent → Link → Option ℕ → Option ℕ
sign (checked now clock healthy sent) l t = t
sign (replied clock) l t = some clock
sign (connecting clock healthy hosts) l t =
    if l.is_open && healthy then t else if accepts_bind hosts then some clock else t

abbrev pub last_sign : List LinkEvent → Link → Option ℕ → Option ℕ
last_sign [] l t = t
last_sign (e ∷ es) l t = last_sign es (step_link e l) (sign e l t)

abbrev Times : Option ℕ → Link → Type 0
Times none l = l.timeout ≡ 0
Times (some t) l = l.timeout ≡ t + timeout_interval

timeout-is_leave_us :
    (now clock : ℕ) (healthy sent : Bool) (l : Link)
    → ((is_leave_us now clock healthy sent l).1).timeout ≡ l.timeout
unfolding is_leave_us ping close seq
timeout-is_leave_us now clock healthy sent l = ground arith

Times-same : (t : Option ℕ) (l m : Link) → m.timeout ≡ l.timeout → Times t l → Times t m
Times-same none l m e h = e ∙ h
Times-same (some t) l m e h = e ∙ h

connect_hosts-Times :
    (clock : ℕ) (hosts : List Attempt) (t : Option ℕ) (l : Link)
    → Times t l
    → Times (if accepts_bind hosts then some clock else t) (connect_hosts clock hosts l).1
unfolding connect_hosts close seq
connect_hosts-Times clock [] t l h = h
connect_hosts-Times clock (unreachable ∷ hosts) t l h = connect_hosts-Times clock hosts t l h
connect_hosts-Times clock (unanswered ∷ hosts) t l h =
    connect_hosts-Times clock hosts t _ (Times-same t l _ refl h)
connect_hosts-Times clock (refused ∷ hosts) t l h =
    connect_hosts-Times clock hosts t _ (Times-same t l _ refl h)
connect_hosts-Times clock (bound true ∷ hosts) t l h = refl
connect_hosts-Times clock (bound false ∷ hosts) t l h = refl

connect-Times :
    (clock : ℕ) (healthy : Bool) (hosts : List Attempt) (t : Option ℕ) (l : Link)
    → Times t l
    → Times (sign (connecting clock healthy hosts) l t) (connect clock healthy hosts l).1
unfolding connect
connect-Times clock healthy hosts t l h = elim (Bool-cases (l.is_open && healthy)) [
  | inl up ↦ rw (up, connect) h
  | inr down ↦ rw (down, connect) (connect_hosts-Times clock hosts t _ (Times-same t l _ refl h))
]

step_link-Times :
    (e : LinkEvent) (t : Option ℕ) (l : Link) → Times t l → Times (sign e l t) (step_link e l)
unfolding step_link renewed connect
step_link-Times (checked now clock healthy sent) t l h =
    Times-same t l _ (timeout-is_leave_us now clock healthy sent l) h
step_link-Times (replied clock) t l h = refl
step_link-Times (connecting clock healthy hosts) t l h = connect-Times clock healthy hosts t l h

run_link-Times :
    (es : List LinkEvent) (t : Option ℕ) (l : Link)
    → Times t l
    → Times (last_sign es l t) (run_link es l)
unfolding run_link
run_link-Times [] t l h = h
run_link-Times (e ∷ es) t l h =
    run_link-Times es (sign e l t) (step_link e l) (step_link-Times e t l h)

-- Whether there was a sign of life more than the interval ago.
abbrev pub silent : ℕ → Option ℕ → Bool
silent now none = false
silent now (some t) = ltb (t + timeout_interval) now

leaves_at :
    (now clock : ℕ) (healthy sent : Bool) (t : Option ℕ) (l : Link)
    → Times t l
    → (is_leave_us now clock healthy sent l).0 ≡ silent now t
unfolding is_leave_us
leaves_at now clock healthy sent none l h = ground arith
leaves_at now clock healthy sent (some t) l h = ground arith

-- Whatever happened to a gateway, it is given up exactly if its last sign of life, an accepted bind or
-- an enquiry or an answer to one, is more than a minute old. One that has never had its bind accepted
-- is never given up.
pub is_leave_us-run_link :
    (es : List LinkEvent) (now clock : ℕ) (healthy sent : Bool)
    → (is_leave_us now clock healthy sent (run_link es make_link)).0
      ≡ silent now (last_sign es make_link none)
is_leave_us-run_link es now clock healthy sent =
    leaves_at now clock healthy sent (last_sign es make_link none) (run_link es make_link)
      (run_link-Times es none make_link refl)
