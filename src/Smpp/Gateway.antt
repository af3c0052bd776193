-- ===== src/Smpp/Gateway.antt =====
-- csmppservice::cgateway: what the service does with a reply of the gateway, and when it gives the
-- gateway up.
use push1st.Prelude.{
  ◌==◌, codes, bytes_eq, if◌then◌else◌, Bytes, Bool, List, [], ◌∷◌, none, some, true, false, ℕ,
}
use push1st.Prelude.{[], ◌==◌, ◌∷◌, if◌then◌else◌, Bool, ℕ, List, Bytes}
use push1st.Smpp.Pdu.{
  Command, unpack_command, unpack_delivery, unpack_text, pack_enquire, pack_delivery_resp,
}
use push1st.Smpp.Receipt.{unpack_short_msg}
use push1st.Smpp.Service.{Service, accepted, reported}

-- The status that goes to the hook, with its sequence number.
pub data Status : Type 0 where
  accept_status : ℕ → Bytes → Status
  delivery_status : ℕ → Bytes → Bytes → Status
  event_status : ℕ → ℕ → Status
  error_status : ℕ → ℕ → Status

-- What a reply makes the gateway do besides changing the queues: it sends a message, moves its
-- timeout on, or pushes a status to the hook.
pub data Action : Type 0 where
  send : Bytes → Action
  renew : Action
  push_hook : Status → Action

-- `overrun` is a reading past the end of the reply, `throws` an exception of cshortmsg::Unpack.
pub data Handled : Type 0 where
  overrun throws : Handled
  done : Service → List Action → Handled

abbrev pub deliver_id : ℕ
deliver_id = 5

abbrev pub sms_resp_id : ℕ
sms_resp_id = 0x80000004

abbrev pub enquire_id : ℕ
enquire_id = 0x15

abbrev pub enquire_resp_id : ℕ
enquire_resp_id = 0x80000015

-- The last statement of OnDeliveryStatus, where `hook` says whether there is a hook.
unfoldable pub report : Bool → Status → List Action
report true st = push_hook st ∷ []
report false st = []

-- Case cdelivery::id.
unfoldable pub on_receipt : Bool → ℕ → Bytes → Service → Handled
on_receipt hook sequence params s = elim (unpack_delivery params) [
  | none ↦ overrun
  | some (r, rest) ↦ elim (unpack_short_msg r.message) [
    | none ↦ throws
    | some m ↦ done (reported m.id (bytes_eq m.stat (codes "DELIVRD")) s) (
        send (pack_delivery_resp sequence [] 0)
        ∷ report hook (delivery_status sequence m.stat r.message))
  ]
]

-- Case csms::resp_id; its branch for another status than 0 is never taken.
unfoldable pub on_sms_resp : Bool → ℕ → Bytes → Service → Handled
on_sms_resp hook sequence params s = elim (unpack_text params) [
  | none ↦ overrun
  | some (uid, rest) ↦ done (accepted sequence uid s) (report hook (accept_status sequence uid))
]

-- The switch over the command.
unfoldable pub on_command : Bool → Command → Bytes → Service → Handled
on_command hook c params s =
    if c.id == deliver_id
    then on_receipt hook c.sequence params s
    else if c.id == sms_resp_id
    then on_sms_resp hook c.sequence params s
    else if c.id == enquire_id
    then done s (send (pack_enquire c.sequence enquire_resp_id 0) ∷ renew ∷ [])
    else if c.id == enquire_resp_id
    then done s (renew ∷ [])
    else done s (report hook (event_status c.sequence c.status))

-- OnDeliveryStatus
unfoldable pub on_delivery_status : Bool → Bytes → Service → Handled
on_delivery_status hook d s = elim (unpack_command d) [
  | none ↦ overrun
  | some (c, params) ↦
      if c.status == 0
      then on_command hook c params s
      else done s (report hook (error_status c.sequence c.status))
]
