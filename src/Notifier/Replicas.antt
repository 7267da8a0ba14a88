-- ===== src/Notifier/Replicas.antt =====
-- Two replicas of the notifier that run the dispatch loop over one table.
use trading_worker.Base.{
  ℕ, ◌≡◌, ◌∙◌, refl, sym, ap, arith, false, List, [], ◌∷◌, ◌++◌, map, Option, Bool-cases, inl, inr,
  none,
}
use mathlib.Core.List.{append_assoc, append-nil}
use trading_worker.Base.Text.{Text, codes, coalesce}
use trading_worker.Notifier.{
  NotificationRow, NotifierState, DeliveryStatus, delivered, skipped, Delivery, delivery_of,
  record_delivery, NotifyAnswer, answered, threw, is_supported_channel_type, dispatch, mark_failed,
  mark_sent, on_result, handle_row, handle_rows, claim_pending,
}

-- A vendor that answers each row by a status and a reason.
abbrev pub Vendor : Type 0
Vendor = NotificationRow → DeliveryStatus × Option Text

abbrev pub answer_of : Vendor → NotificationRow → NotifyAnswer
answer_of vendor row = answered ((vendor row).0) ((vendor row).1)

abbrev status_of : NotifyAnswer → DeliveryStatus
status_of (answered status reason) = status
status_of (threw message) = DeliveryStatus.failed

abbrev reason_of : NotifyAnswer → Option Text
reason_of (answered status reason) = reason
reason_of (threw message) = none

-- The delivery that is recorded for a row: what the dispatch answers, the vendor's answer or a skip.
abbrev pub recorded : Vendor → ℕ → NotificationRow → Delivery
recorded vendor now row =
    let answer = dispatch (answer_of vendor row) row.channel_type in
    delivery_of now row (status_of answer) (reason_of answer)

deliveries-mark_failed :
    (id : ℕ) (error : Text) (next : Option ℕ) (s : NotifierState)
    → (mark_failed id error next s).deliveries ≡ s.deliveries
unfolding mark_failed
deliveries-mark_failed id error next s = ground arith

deliveries-mark_sent :
    (id now : ℕ) (s : NotifierState) → (mark_sent id now s).deliveries ≡ s.deliveries
unfolding mark_sent
deliveries-mark_sent id now s = refl

deliveries-on_result :
    (max_attempts now : ℕ) (row : NotificationRow) (status : DeliveryStatus) (reason : Option Text)
    (s : NotifierState)
    → (on_result max_attempts now row (answered status reason) s).deliveries
      ≡ s.deliveries ++ delivery_of now row status reason ∷ []
unfolding on_result
deliveries-on_result max_attempts now row delivered reason s =
    deliveries-mark_sent row.id now (record_delivery now row delivered reason s)
deliveries-on_result max_attempts now row skipped reason s =
    deliveries-mark_sent row.id now (record_delivery now row skipped reason s)
deliveries-on_result max_attempts now row DeliveryStatus.failed reason s =
    deliveries-mark_failed row.id (coalesce reason (codes "unknown vendor failure")) _
      (record_delivery now row DeliveryStatus.failed reason s)

deliveries-handle_row :
    (max_attempts now : ℕ) (vendor : Vendor) (row : NotificationRow) (s : NotifierState)
    → (handle_row max_attempts now row (answer_of vendor row) s).deliveries
      ≡ s.deliveries ++ recorded vendor now row ∷ []
unfolding handle_row dispatch
deliveries-handle_row max_attempts now vendor row s =
    elim (Bool-cases (is_supported_channel_type row.channel_type)) [
      | inl e ↦ rw e (deliveries-on_result max_attempts now row _ _ s)
      | inr e ↦ rw e (deliveries-on_result max_attempts now row _ _ s)
    ]

deliveries-handle_rows :
    (max_attempts now : ℕ) (vendor : Vendor) (rows : List NotificationRow) (s : NotifierState)
    → (handle_rows max_attempts now (answer_of vendor) rows s).deliveries
      ≡ s.deliveries ++ map (recorded vendor now) rows
unfolding handle_rows
deliveries-handle_rows max_attempts now vendor [] s = sym (append-nil s.deliveries)
deliveries-handle_rows max_attempts now vendor (row ∷ rows) s =
    deliveries-handle_rows max_attempts now vendor rows
      (handle_row max_attempts now row (answer_of vendor row) s)
    ∙ ap (λ l. l ++ map (recorded vendor now) rows)
        (deliveries-handle_row max_attempts now vendor row s)
    ∙ append_assoc s.deliveries (recorded vendor now row ∷ []) (map (recorded vendor now) rows)

-- Where one replica claims and then another does, before the first has sent: the claim of the first has left
-- nothing behind, its locks end with its transaction, so the second is handed the same rows, and each of them
-- is sent twice.
pub two_replicas_send_twice :
    (limit max_attempts claimed_at now : ℕ) (vendor : Vendor) (s : NotifierState)
    → let first = claim_pending (λ _. false) limit claimed_at s in
      let second = claim_pending (λ _. false) limit claimed_at first.1 in
      let sent_once = handle_rows max_attempts now (answer_of vendor) first.0 second.1 in
      (handle_rows max_attempts now (answer_of vendor) second.0 sent_once).deliveries
      ≡ (s.deliveries ++ map (recorded vendor now) first.0) ++ map (recorded vendor now) first.0
unfolding claim_pending
two_replicas_send_twice limit max_attempts claimed_at now vendor s =
    let rows = (claim_pending (λ _. false) limit claimed_at s).0 in
    let sent_once = handle_rows max_attempts now (answer_of vendor) rows s in
    deliveries-handle_rows max_attempts now vendor rows sent_once
    ∙ ap (λ l. l ++ map (recorded vendor now) rows)
        (deliveries-handle_rows max_attempts now vendor rows s)
