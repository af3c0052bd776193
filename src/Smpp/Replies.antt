-- ===== src/Smpp/Replies.antt =====
-- The replies of a gateway, from their bytes to the queues.
use push1st.Prelude.{
  Without, All, arith, ◌==◌, ◌≡◌, ◌≤◌, ◌<◌, Option-cases, codes, bytes_eq, if◌then◌else◌, Bytes,
  Bool, List, refl, [], ◌∷◌, some, inl, inr, true, false, ℕ, ◌++◌, length,
}
use push1st.Smpp.Pdu.{
  Command, pack_text, make_command, pack_command, Body, pack_sms, unpack_command, unpack_delivery,
  unpack_text,
}
use push1st.Smpp.Wire.{command_of}
use push1st.Smpp.Parameters.{IsBody, IsCommand}
use push1st.Smpp.Receipt.{ShortMsg, Key, no_msg, value_of, unpack_short_msg}
use push1st.Smpp.Fields.{pairs, assign_all, with_text}
use push1st.Smpp.Service.{Service, Event, handle, answered, receipt}
use push1st.Smpp.Gateway.{
  on_delivery_status, on_command, on_receipt, on_sms_resp, Handled, overrun, throws, done,
  deliver_id, sms_resp_id, enquire_id, enquire_resp_id,
}

-- The events that a reply stands for, and the state after them.
abbrev pub run : List Event → Service → Service
run [] s = s
run (e ∷ es) s = run es (handle e s)

-- What may become of the queues: nothing, or one answer, or one receipt.
abbrev pub Explained : Service → Handled → Type 0
Explained s overrun = Unit
Explained s throws = Unit
Explained s (done t actions) = (es : List Event) × ((length es ≤ 1) × (run es s ≡ t))

on_receipt-Explained :
    (hook : Bool) (q : ℕ) (d : Bytes) (s : Service) → Explained s (on_receipt hook q d s)
unfolding on_receipt
on_receipt-Explained hook q d s = elim (Option-cases (unpack_delivery d)) [
  | inl n ↦ rw (n, on_receipt) tt
  | inr ((r, rest), f) ↦ elim (Option-cases (unpack_short_msg r.message)) [
    | inl n ↦ rw (f, n, on_receipt) tt
    | inr (m, k) ↦
        rw (f, k, on_receipt)
          (
            receipt m.id (bytes_eq m.stat (codes "DELIVRD")) ∷ [],
            (omega arith, unfold handle in refl),
          )
  ]
]

on_sms_resp-Explained :
    (hook : Bool) (q : ℕ) (d : Bytes) (s : Service) → Explained s (on_sms_resp hook q d s)
unfolding on_sms_resp
on_sms_resp-Explained hook q d s = elim (Option-cases (unpack_text d)) [
  | inl n ↦ rw (n, on_sms_resp) tt
  | inr ((uid, rest), f) ↦
      rw (f, on_sms_resp) (answered q uid ∷ [], (omega arith, unfold handle in refl))
]

Explained-if :
    (b : Bool) (s : Service) (x y : Handled)
    → Explained s x
    → Explained s y
    → Explained s (if b then x else y)
Explained-if true s x y p q = p
Explained-if false s x y p q = q

unchanged : (s : Service) → (es : List Event) × ((length es ≤ 1) × (run es s ≡ s))
unchanged s = ([], (omega arith, refl))

on_command-Explained :
    (hook : Bool) (c : Command) (d : Bytes) (s : Service) → Explained s (on_command hook c d s)
unfolding on_command
on_command-Explained hook c d s =
    Explained-if (c.id == deliver_id) s _ _ (on_receipt-Explained hook c.sequence d s) (
      Explained-if (c.id == sms_resp_id) s _ _ (on_sms_resp-Explained hook c.sequence d s) (
        Explained-if (c.id == enquire_id) s _ _ (unchanged s)
          (Explained-if (c.id == enquire_resp_id) s _ _ (unchanged s) (unchanged s))))

-- Whatever the bytes of a reply are, if they are handled at all, then the queues change by one answer
-- or by one receipt or not at all.
pub on_delivery_status-Explained :
    (hook : Bool) (d : Bytes) (s : Service) → Explained s (on_delivery_status hook d s)
unfolding on_delivery_status
on_delivery_status-Explained hook d s = elim (Option-cases (unpack_command d)) [
  | inl n ↦ rw (n, on_delivery_status) tt
  | inr ((c, params), f) ↦
      rw (f, on_delivery_status)
        (Explained-if (c.status == 0) s _ _ (on_command-Explained hook c params s) (unchanged s))
]

-- The answer to a short message, and the receipt of one, as a gateway sends them.
abbrev pub answer_message : ℕ → ℕ → Bytes → Bytes
answer_message len sequence uid =
    pack_command (command_of len sms_resp_id 0 sequence) ++ pack_text uid

abbrev pub receipt_message : ℕ → Body → List (Key × Bytes) → Bytes → Bytes
receipt_message sequence b fs t =
    pack_sms (make_command deliver_id 0 sequence)
      (record { body = b; msg_id = 0; message = pairs fs ++ with_text t })

-- The receipt of a delivered message: what it has to be to reach the queues under its name.
abbrev pub IsDelivered : Bytes → ℕ → Body → List (Key × Bytes) → Bytes → Type 0
IsDelivered uid sequence b fs t =
    IsCommand (command_of (length (receipt_message sequence b fs t)) deliver_id 0 sequence)
    × (IsBody b
        × ((length (pairs fs ++ with_text t) < 256)
            × (All (λ p. Without b' ' p.1) fs
                × (Without b':' (value_of t).1
                    × ((m : ShortMsg) × ((assign_all fs no_msg ≡ some m)
                          × ((m.id ≡ uid) × (m.stat ≡ codes "DELIVRD"))))))))
