-- ===== src/Notifier/Settling.antt =====
-- What an attempt to send a notification leaves of its outbox row.
use trading_worker.Base.{
  ℕ, ◌+◌, ◌-◌, ◌≤◌, ◌<◌, ◌≡◌, ◌∙◌, refl, sym, ap, subst, arith, true, false, List, [], ◌∷◌, length,
  take, Option, some, none, leb, ◌==◌, if◌then◌else◌, Bool-cases, inl, inr, ◌⊎◌,
}
use mathlib.Core.Option
use trading_worker.Base.Powers.{two_power_pos}
use trading_worker.Base.Text.{Text, codes}
use trading_worker.Sql.{find_first}
use trading_worker.Sql.Rows.{find_first-update_where}
use trading_worker.Notifier.{
  NotificationRow, NotifierState, OutboxStatus, pending, sent, DeliveryStatus, delivered, skipped,
  NotifyAnswer, answered, threw, is_waiting, is_row, mark_sent, mark_failed, set_unsent,
  next_attempt_date, set_sent, record_delivery, base_backoff_ms, max_backoff_ms, on_result,
  dispatch, handle_row, is_supported_channel_type,
}

-- The row with an id, which is the primary key.
abbrev pub row_of : ℕ → NotifierState → Option NotificationRow
row_of id s = find_first (is_row id) s.outbox

-- Why an attempt has succeeded: the vendor is not asked, for a channel type that is not supported, or it has
-- delivered or skipped the notification.
pub data HasSucceeded (row : NotificationRow) (vendor : NotifyAnswer) : Type 0 where
  not_asked : is_supported_channel_type row.channel_type ≡ false → HasSucceeded row vendor
  was_delivered :
      (reason : Option Text)
      → is_supported_channel_type row.channel_type ≡ true
      → vendor ≡ answered delivered reason
      → HasSucceeded row vendor
  was_skipped :
      (reason : Option Text)
      → is_supported_channel_type row.channel_type ≡ true
      → vendor ≡ answered skipped reason
      → HasSucceeded row vendor

-- Why an attempt has failed, with its message: the vendor was asked and has reported a failure, or has thrown.
pub data HasFailed (row : NotificationRow) (vendor : NotifyAnswer) (message : Text) : Type 0 where
  reported :
      is_supported_channel_type row.channel_type ≡ true
      → vendor ≡ answered DeliveryStatus.failed (some message)
      → HasFailed row vendor message
  reported_no_reason :
      is_supported_channel_type row.channel_type ≡ true
      → vendor ≡ answered DeliveryStatus.failed none
      → message ≡ codes "unknown vendor failure"
      → HasFailed row vendor message
  has_thrown :
      is_supported_channel_type row.channel_type ≡ true
      → vendor ≡ threw message
      → HasFailed row vendor message

-- A row after an attempt: sent, if the attempt has succeeded; if it has failed, to be tried again, after the base
-- delay and within the longest one, or given up with its attempts used up, the failed attempt counted once.
pub data IsSettled (max_attempts now : ℕ) (row : NotificationRow) (vendor : NotifyAnswer)
    (r : NotificationRow) : Type 0 where
  was_sent :
      HasSucceeded row vendor
      → r.status ≡ sent
      → r.sent_at ≡ some now
      → r.attempts ≡ row.attempts
      → r.last_error ≡ none
      → IsSettled max_attempts now row vendor r
  waits :
      (message : Text)
      → HasFailed row vendor message
      → r.status ≡ pending
      → r.last_error ≡ some (take 1000 message)
      → r.attempts ≡ row.attempts + 1
      → r.attempts < max_attempts
      → now + base_backoff_ms ≤ r.next_attempt_at
      → r.next_attempt_at ≤ now + max_backoff_ms
      → IsSettled max_attempts now row vendor r
  gave_up :
      (message : Text)
      → HasFailed row vendor message
      → r.status ≡ OutboxStatus.failed
      → r.last_error ≡ some (take 1000 message)
      → r.attempts ≡ row.attempts + 1
      → max_attempts ≤ r.attempts
      → IsSettled max_attempts now row vendor r

-- The delay lies between the base and the longest one.
next_attempt_date-bounds :
    (max_attempts now count next : ℕ)
    → next_attempt_date max_attempts now count ≡ some next
    → (now + base_backoff_ms ≤ next) × (next ≤ now + max_backoff_ms) × (count < max_attempts)
unfolding next_attempt_date
next_attempt_date-bounds max_attempts now count next e =
    elim (Bool-cases (leb max_attempts count)) [
      | inl f ↦ absurd (cc (e, f))
      | inr f ↦ ground (arith, two_power_pos (count - 1))
    ]

id-set_unsent :
    (attempts : ℕ) (error : Text) (next : Option ℕ) (r : NotificationRow)
    → (set_unsent attempts error next r).id ≡ r.id
id-set_unsent attempts error none r = refl
id-set_unsent attempts error (some next) r = refl

-- The row after `markFailed`.
row_of-mark_failed :
    (id : ℕ) (error : Text) (next : Option ℕ) (s : NotifierState) (row : NotificationRow)
    → row_of id s ≡ some row
    → row_of id (mark_failed id error next s) ≡ some (set_unsent (row.attempts + 1) error next row)
unfolding mark_failed
row_of-mark_failed id error next s row e = rw e (
    find_first-update_where (is_row id) (set_unsent (row.attempts + 1) error next)
      (λ r. ap (λ i. i == id) (id-set_unsent (row.attempts + 1) error next r)) s.outbox
    ∙ ap (Option.map (set_unsent (row.attempts + 1) error next)) e)

row_of-mark_sent :
    (id now : ℕ) (s : NotifierState) (row : NotificationRow)
    → row_of id s ≡ some row
    → row_of id (mark_sent id now s) ≡ some (set_sent now row)
unfolding mark_sent
row_of-mark_sent id now s row e =
    find_first-update_where (is_row id) (set_sent now) (λ r. refl) s.outbox
    ∙ ap (Option.map (set_sent now)) e

next_attempt_date-none :
    (max_attempts now count : ℕ)
    → next_attempt_date max_attempts now count ≡ none
    → max_attempts ≤ count
unfolding next_attempt_date
next_attempt_date-none max_attempts now count e = ground arith

module _ (max_attempts now : ℕ) (row : NotificationRow) (vendor : NotifyAnswer) where
  abbrev pub After : NotifierState → Type 0
  After s =
      (r : NotificationRow) × (row_of row.id s ≡ some r) × IsSettled max_attempts now row vendor r

  set_unsent-IsSettled :
      (message : Text) (next : Option ℕ)
      → HasFailed row vendor message
      → next_attempt_date max_attempts now (row.attempts + 1) ≡ next
      → IsSettled max_attempts now row vendor (set_unsent (row.attempts + 1) message next row)
  set_unsent-IsSettled message none f e =
      gave_up message f refl refl refl
        (next_attempt_date-none max_attempts now (row.attempts + 1) e)
  set_unsent-IsSettled message (some next) f e =
      let (later, soon, left) =
        next_attempt_date-bounds max_attempts now (row.attempts + 1) next e in
      waits message f refl refl refl left later soon

  failed-After :
      (message : Text) (s : NotifierState)
      → HasFailed row vendor message
      → row_of row.id s ≡ some row
      → After (mark_failed row.id message (next_attempt_date max_attempts now (row.attempts + 1)) s)
  failed-After message s f e =
      let next = next_attempt_date max_attempts now (row.attempts + 1) in
      (
        set_unsent (row.attempts + 1) message next row,
        row_of-mark_failed row.id message next s row e,
        set_unsent-IsSettled message next f refl,
      )

  sent-After :
      (s : NotifierState)
      → HasSucceeded row vendor
      → row_of row.id s ≡ some row
      → After (mark_sent row.id now s)
  sent-After s h e =
      (set_sent now row, row_of-mark_sent row.id now s row e, was_sent h refl refl refl refl)

  asked-After :
      (answer : NotifyAnswer) (s : NotifierState)
      → is_supported_channel_type row.channel_type ≡ true
      → vendor ≡ answer
      → row_of row.id s ≡ some row
      → After (on_result max_attempts now row answer s)
  unfolding on_result
  asked-After (answered delivered reason) s k v e =
      sent-After (record_delivery now row delivered reason s) (was_delivered reason k v) e
  asked-After (answered skipped reason) s k v e =
      sent-After (record_delivery now row skipped reason s) (was_skipped reason k v) e
  asked-After (answered DeliveryStatus.failed none) s k v e =
      failed-After (codes "unknown vendor failure")
        (record_delivery now row DeliveryStatus.failed none s) (reported_no_reason k v refl) e
  asked-After (answered DeliveryStatus.failed (some message)) s k v e =
      failed-After message (record_delivery now row DeliveryStatus.failed (some message) s)
        (reported k v) e
  asked-After (threw message) s k v e = failed-After message s (has_thrown k v) e

  -- The row that was claimed, after its attempt. It is sent, its attempts as they were and with no error, only
  -- where the vendor has delivered or skipped the notification, or the channel type is not supported, for which
  -- the vendor is not asked. Where the vendor reports a failure or throws, the row has the message, cut to 1000
  -- codes, and the attempt counted; it waits, below the most attempts, after five seconds at least and five
  -- minutes at most, or it is given up, with as many attempts as there may be.
  pub handle_row-IsSettled :
      (s : NotifierState)
      → row_of row.id s ≡ some row
      → After (handle_row max_attempts now row vendor s)
  unfolding handle_row dispatch on_result
  handle_row-IsSettled s e = elim (Bool-cases (is_supported_channel_type row.channel_type)) [
    | inl k ↦ rw k (asked-After vendor s k refl e)
    | inr k ↦ rw k (sent-After s (not_asked k) e)
  ]

-- One attempt after another at the row with an id, as long as it waits, each at its own instant and with its
-- own answer of the vendor.
abbrev try_found : ℕ → ℕ → NotifyAnswer → Option NotificationRow → NotifierState → NotifierState
try_found max_attempts now vendor none s = s
try_found max_attempts now vendor (some row) s =
    if is_waiting row.status then handle_row max_attempts now row vendor s else s

unfoldable pub try_row : ℕ → ℕ → List (ℕ × NotifyAnswer) → NotifierState → NotifierState
unfolding handle_row find_first
try_row max_attempts id [] s = s
try_row max_attempts id ((now, vendor) ∷ rounds) s =
    try_row max_attempts id rounds (try_found max_attempts now vendor (row_of id s) s)

id-row_of :
    (id : ℕ) (rows : List NotificationRow) (row : NotificationRow)
    → find_first (is_row id) rows ≡ some row
    → row.id ≡ id
unfolding find_first
id-row_of id [] row e = absurd (cc)
id-row_of id (r ∷ rows) row e = elim (Bool-cases (r.id == id)) [
  | inl f ↦ ground (arith, e, f)
  | inr f ↦ id-row_of id rows row (rw f at e)
]

-- A row that no longer waits, or that has an attempt left.
abbrev pub MayWait : ℕ → NotificationRow → Type 0
MayWait max_attempts r = (is_waiting r.status ≡ false) ⊎ (r.attempts < max_attempts)

abbrev Over : ℕ → ℕ → NotifierState → Type 0
Over max_attempts id s =
    (r : NotificationRow) × (row_of id s ≡ some r) × (is_waiting r.status ≡ false)

module _ (max_attempts now id : ℕ) (vendor : NotifyAnswer) (s : NotifierState)
    (row : NotificationRow) (e : row_of id s ≡ some row) where
  try_found-waiting :
      is_waiting row.status ≡ true
      → try_found max_attempts now vendor (row_of id s) s ≡ handle_row max_attempts now row vendor s
  try_found-waiting f = ap (λ o. try_found max_attempts now vendor o s) e ∙ rw f

  try_found-over :
      is_waiting row.status ≡ false → try_found max_attempts now vendor (row_of id s) s ≡ s
  try_found-over f = ap (λ o. try_found max_attempts now vendor o s) e ∙ rw f

try_row-stays :
    (max_attempts id : ℕ) (rounds : List (ℕ × NotifyAnswer)) (s : NotifierState)
    → Over max_attempts id s
    → Over max_attempts id (try_row max_attempts id rounds s)
unfolding try_row
try_row-stays max_attempts id [] s over = over
try_row-stays max_attempts id ((now, vendor) ∷ rounds) s (row, e, f) =
    subst (λ t. Over max_attempts id (try_row max_attempts id rounds t))
      (sym (try_found-over max_attempts now id vendor s row e f))
      (try_row-stays max_attempts id rounds s (row, e, f))

settled-IsOver :
    (max_attempts id now : ℕ) (rounds : List (ℕ × NotifyAnswer)) (row : NotificationRow)
    (vendor : NotifyAnswer) (s : NotifierState) (r : NotificationRow)
    → row_of id s ≡ some r
    → IsSettled max_attempts now row vendor r
    → (r.attempts < max_attempts
        → r.attempts ≡ row.attempts + 1
        → Over max_attempts id (try_row max_attempts id rounds s))
    → Over max_attempts id (try_row max_attempts id rounds s)
settled-IsOver max_attempts id now rounds row vendor s r found (was_sent h status at same clean)
      again =
    try_row-stays max_attempts id rounds s (r, found, rw status refl)
settled-IsOver max_attempts id now rounds row vendor s r found
      (waits message f status error counted left later soon) again =
    again left counted
settled-IsOver max_attempts id now rounds row vendor s r found
      (gave_up message f status error counted used) again =
    try_row-stays max_attempts id rounds s (r, found, rw status refl)

-- As many attempts as a row that waits has left bring it to an end, sent or given up, whatever the vendor
-- answers to each.
pub try_row-IsOver :
    (max_attempts id : ℕ) (rounds : List (ℕ × NotifyAnswer)) (s : NotifierState)
    (row : NotificationRow)
    → row_of id s ≡ some row
    → MayWait max_attempts row
    → max_attempts ≤ row.attempts + length rounds
    → Over max_attempts id (try_row max_attempts id rounds s)
unfolding try_row
try_row-IsOver max_attempts id [] s row e (inl over) enough = (row, e, over)
try_row-IsOver max_attempts id [] s row e (inr left) enough = absurd (omega arith)
try_row-IsOver max_attempts id ((now, vendor) ∷ rounds) s row e may enough =
    elim (Bool-cases (is_waiting row.status)) [
      | inl f ↦
          let same = id-row_of id s.outbox row e in
          let (r, found, settled) =
            subst
              (λ (i : ℕ).
                (r : NotificationRow) × (row_of i (handle_row max_attempts now row vendor s)
                  ≡ some r)
                × IsSettled max_attempts now row vendor r)
              same
              (handle_row-IsSettled max_attempts now row vendor s
                (subst (λ (i : ℕ). row_of i s ≡ some row) (sym same) e)) in
          subst (λ t. Over max_attempts id (try_row max_attempts id rounds t))
            (sym (try_found-waiting max_attempts now id vendor s row e f))
            (settled-IsOver max_attempts id now rounds row vendor
              (handle_row max_attempts now row vendor s) r found settled
              (λ left counted.
                try_row-IsOver max_attempts id rounds (handle_row max_attempts now row vendor s) r
                  found (inr left) (omega arith)))
      | inr f ↦
          subst (λ t. Over max_attempts id (try_row max_attempts id rounds t))
            (sym (try_found-over max_attempts now id vendor s row e f))
            (try_row-stays max_attempts id rounds s (row, e, f))
    ]
