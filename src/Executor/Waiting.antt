-- ===== src/Executor/Waiting.antt =====
-- The polls of `waitForBrokerHandle`.
use trading_worker.Base.{
  ℕ, zero, suc, ◌+◌, ◌*◌, ◌≤◌, ◌≡◌, refl, arith, List, Option, some, none, ltb, Bool-cases, inl,
  inr,
}
use trading_worker.Base.Text.{Text}
use trading_worker.Order.{Order}
use trading_worker.Executor.Cancelling.{
  missing_broker_handle_poll_ms, Poll, go_on, return, after_poll, wait_for_broker_handle,
}

after_poll_total :
    (rest : Option (Option Text)) (p : Poll)
    → (handle : Option Text) × (rest ≡ some handle)
    → (handle : Option Text) × (after_poll rest p ≡ some handle)
after_poll_total rest go_on h = h
after_poll_total rest (return handle) h = (handle, refl)

module _ (table : ℕ → List Order) (id : ℕ) where
  -- Whatever the table holds at each poll, the wait returns before its polls run out, if they cover the time
  -- up to the deadline with one more.
  pub wait_for_broker_handle_total :
      (polls now deadline : ℕ)
      → deadline ≤ now + polls * missing_broker_handle_poll_ms
      → (handle : Option Text) × (wait_for_broker_handle table id (suc polls) now deadline
          ≡ some handle)
  unfolding wait_for_broker_handle
  wait_for_broker_handle_total zero now deadline h = elim (Bool-cases (ltb now deadline)) [
    | inr e ↦ rw e (none, refl)
    | inl e ↦ absurd (ground arith)
  ]
  wait_for_broker_handle_total (suc polls) now deadline h = elim (Bool-cases (ltb now deadline)) [
    | inr e ↦ rw e (none, refl)
    | inl e ↦ rw e (
        after_poll_total _ _ (
          wait_for_broker_handle_total polls (now + missing_broker_handle_poll_ms) deadline
            (omega arith)))
  ]
