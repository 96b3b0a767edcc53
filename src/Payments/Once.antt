-- ===== src/Payments/Once.antt =====
-- A second capture or cancellation of a payment.
use openseat.Base.{
  ℕ, ◌≡◌, refl, inl, inr, false, Bool-cases, none, Option-cases, if◌then◌else◌, any, find, ap,
  any-update, arith, List,
}
use openseat.Store.{Store, OrderStatus, canceled, Payment, PaymentStatus}
use openseat.Store.Action.{
  Action, Ends-at, Ends, Ends-mono, continue-Ends, ok, return, require_some, record_not_found,
  ◌>>=◌,
}
use openseat.Store.Keeps.{Keeps, continue-Keeps, if-Keeps, require_some-Keeps, Keeps-Ends}
use openseat.Orders.{claim_order, find_order, release_order_inventory_in_tx, release_claimed}
use openseat.Orders.Keeps.{ledger, release_claimed-Keeps}
use openseat.Payments.{
  SucceededOutcome, ignored, claim_payment, requires_action_status, is_open_payment, has_intent,
  settle_order, capture, cancel, fulfil,
}
use openseat.Payments.Keeps.{fulfil-Keeps}

-- No payment of the intent waits for its outcome.
abbrev pub IsSettled : ℕ → List Payment → Type 0
IsSettled intent_id payments = any (is_open_payment intent_id) payments ≡ false

abbrev pub payments_of : Store → List Payment
payments_of s = s.payments

pub claim_payment-settles :
    (intent_id : ℕ) (status : PaymentStatus) (s : Store)
    → requires_action_status status ≡ false
    → Ends (claim_payment intent_id status s) (λ _ s'. IsSettled intent_id s'.payments)
unfolding claim_payment
claim_payment-settles intent_id status s final =
    elim (Bool-cases (any (is_open_payment intent_id) s.payments)) [
      | inr settled ↦ rw settled settled
      | inl waiting ↦ rw waiting (
          any-update (is_open_payment intent_id) (λ p. record p { status = status })
            (λ p. ground (arith, final)) s.payments)
    ]

claim_order-payments :
    (order_id : ℕ) (status : OrderStatus) → Keeps payments_of (claim_order order_id status)
unfolding claim_order
claim_order-payments order_id status s = ground arith

settle_order-payments : (payment : Payment) → Keeps payments_of (settle_order payment)
unfolding settle_order
settle_order-payments payment s =
    continue-Keeps payments_of _ (claim_order payment.order_id OrderStatus.paid s) _
      (claim_order-payments payment.order_id OrderStatus.paid s)
      λ claimed s₁.
        if-Keeps payments_of claimed _ _
          (λ s₂.
            continue-Keeps payments_of _
              (require_some (find_order payment.order_id s₁) record_not_found s₂) _
              (require_some-Keeps payments_of _ _ s₂)
              λ order s₃.
                continue-Keeps payments_of _ (fulfil order s₃) _
                  (ap (λ (l : openseat.Orders.Keeps.Ledger). l.1) (fulfil-Keeps order s₃))
                  (λ _ s₄. refl))
          (λ s₂. refl) s₁

release_order-payments :
    (order_id : ℕ) (status : OrderStatus)
    → Keeps payments_of (release_order_inventory_in_tx order_id status)
unfolding release_order_inventory_in_tx
release_order-payments order_id status s =
    continue-Keeps payments_of _ (claim_order order_id status s) _
      (claim_order-payments order_id status s)
      λ claimed s₁.
        if-Keeps payments_of claimed _ _
          (λ s₂.
            ap (λ (l : openseat.Orders.Keeps.Ledger). l.1)
              (release_claimed-Keeps order_id status s₂))
          (λ s₂. refl) s₁

-- The branch of `cancel` that releases the order.
abbrev dropped : ℕ → Action (Unit {0})
dropped order_id = do released ← release_order_inventory_in_tx order_id canceled; return tt

dropped-payments : (order_id : ℕ) → Keeps payments_of (dropped order_id)
dropped-payments order_id s =
    continue-Keeps payments_of _ (release_order_inventory_in_tx order_id canceled s) _
      (release_order-payments order_id canceled s) (λ _ s₁. refl)

-- Neither outcome of the intent changes the store.
abbrev pub IsInert : ℕ → Store → Type 0
IsInert intent_id s = (capture intent_id s ≡ (ok ignored, s)) × (cancel intent_id s ≡ (ok tt, s))

settled-IsInert : (intent_id : ℕ) (s : Store) → IsSettled intent_id s.payments → IsInert intent_id s
unfolding capture cancel claim_payment
settled-IsInert intent_id s settled = elim (Option-cases (find (has_intent intent_id) s.payments)) [
  | inl missing ↦ rw missing (refl, refl)
  | inr (payment, found) ↦ rw (found, settled) (refl, refl)
]

missing-IsInert :
    (intent_id : ℕ) (s : Store)
    → find (has_intent intent_id) s.payments ≡ none
    → IsInert intent_id s
unfolding capture cancel
missing-IsInert intent_id s missing = (rw missing refl, rw missing refl)

IsInert-after :
    {A : Type 0} (intent_id : ℕ) (s : Store) (m : Action A)
    → Keeps payments_of m
    → IsSettled intent_id s.payments
    → Ends (m s) (λ _ s'. IsInert intent_id s')
IsInert-after intent_id s m keeps settled =
    Ends-mono _ _ (m s) (λ _ s'. settled-IsInert intent_id s')
      (Keeps-Ends payments_of (IsSettled intent_id) s (m s) (keeps s) settled)

capture-Ends :
    (intent_id : ℕ) (s : Store) → Ends (capture intent_id s) (λ _ s'. IsInert intent_id s')
unfolding capture
capture-Ends intent_id s = elim (Option-cases (find (has_intent intent_id) s.payments)) [
  | inl missing ↦ rw missing (missing-IsInert intent_id s missing)
  | inr (payment, found) ↦ rw found (
      continue-Ends (λ _ s₁. IsSettled intent_id s₁.payments)
        (claim_payment intent_id PaymentStatus.succeeded s) _ _
        (claim_payment-settles intent_id PaymentStatus.succeeded s refl)
        λ claimed s₁ settled.
          IsInert-after intent_id s₁ (if claimed then settle_order payment else return ignored)
            (if-Keeps payments_of {A = SucceededOutcome} claimed (settle_order payment)
              (return ignored) (settle_order-payments payment) (λ s₂. refl))
            settled)
]

cancel-Ends : (intent_id : ℕ) (s : Store) → Ends (cancel intent_id s) (λ _ s'. IsInert intent_id s')
unfolding cancel
cancel-Ends intent_id s = elim (Option-cases (find (has_intent intent_id) s.payments)) [
  | inl missing ↦ rw missing (missing-IsInert intent_id s missing)
  | inr (payment, found) ↦ rw found (
      continue-Ends (λ _ s₁. IsSettled intent_id s₁.payments)
        (claim_payment intent_id PaymentStatus.failed s) _ _
        (claim_payment-settles intent_id PaymentStatus.failed s refl)
        λ claimed s₁ settled.
          IsInert-after intent_id s₁ (if claimed then dropped payment.order_id else return tt)
            (if-Keeps payments_of {A = Unit {0}} claimed (dropped payment.order_id) (return tt)
              (dropped-payments payment.order_id) (λ s₂. refl))
            settled)
]

-- When the transaction of `handleSucceeded` returned for an intent, neither it nor the transaction of
-- `handleFailed` has an effect on the intent again.
pub capture-once :
    (intent_id : ℕ) (s s' : Store) (outcome : SucceededOutcome)
    → capture intent_id s ≡ (ok outcome, s')
    → (capture intent_id s' ≡ (ok ignored, s')) × (cancel intent_id s' ≡ (ok tt, s'))
capture-once intent_id s s' outcome captured = Ends-at _ captured (capture-Ends intent_id s)

-- When the transaction of `handleFailed` returned for an intent, neither it nor the transaction of
-- `handleSucceeded` has an effect on the intent again.
pub cancel-once :
    (intent_id : ℕ) (s s' : Store)
    → cancel intent_id s ≡ (ok tt, s')
    → (capture intent_id s' ≡ (ok ignored, s')) × (cancel intent_id s' ≡ (ok tt, s'))
cancel-once intent_id s s' failed = Ends-at _ failed (cancel-Ends intent_id s)
