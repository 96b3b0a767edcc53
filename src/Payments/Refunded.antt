-- ===== src/Payments/Refunded.antt =====
-- A second settlement of a refund.
use openseat.Base.{
  ℕ, ◌≡◌, refl, ap, inl, inr, false, Bool-cases, Option, if◌then◌else◌, any, any-update, arith,
  List,
}
use openseat.Store.{Store, Refund, RefundStatus}
use openseat.Store.Action.{
  Action, Ends-at, Ends, Ends-mono, continue-Ends, ok, return, require_some, record_not_found, read,
  ◌>>=◌,
}
use openseat.Store.Keeps.{Keeps, continue-Keeps, if-Keeps, require_some-Keeps, Keeps-Ends}
use openseat.Refunds.{claim_refund, is_refund_in, find_refund, settle_in_tx}
use openseat.Refunds.Keeps.{refunds_of, settle_in_tx-Keeps}
use openseat.Payments.{settle_reference, settle_refund}

-- No refund of that id is pending.
abbrev pub IsSettled : ℕ → List Refund → Type 0
IsSettled refund_id refunds = any (is_refund_in RefundStatus.pending refund_id) refunds ≡ false

claim_refund-settles :
    (now : ℕ) (provider_id : Option ℕ) (refund_id : ℕ) (s : Store)
    → Ends
        (claim_refund refund_id RefundStatus.pending (settle_refund now provider_id) s)
        (λ _ s'. IsSettled refund_id s'.refunds)
unfolding claim_refund
claim_refund-settles now provider_id refund_id s =
    elim (Bool-cases (any (is_refund_in RefundStatus.pending refund_id) s.refunds)) [
      | inr settled ↦ rw settled settled
      | inl waiting ↦ rw waiting (
          any-update (is_refund_in RefundStatus.pending refund_id) (settle_refund now provider_id)
            (λ r. ground arith) s.refunds)
    ]

settled-inert :
    (now : ℕ) (provider_id : Option ℕ) (refund_id : ℕ) (s : Store)
    → IsSettled refund_id s.refunds
    → settle_reference now provider_id refund_id s ≡ (ok tt, s)
unfolding settle_reference claim_refund
settled-inert now provider_id refund_id s settled = rw settled refl

-- The branch of `settle_reference` that adds the amount to the order.
abbrev pub credited : ℕ → Action (Unit {0})
credited refund_id = do
  found ← read (find_refund refund_id)
  refund ← require_some found record_not_found
  settle_in_tx refund.order_id refund.amount_satang

credited-refunds : (refund_id : ℕ) → Keeps refunds_of (credited refund_id)
credited-refunds refund_id s =
    continue-Keeps refunds_of _ (require_some (find_refund refund_id s) record_not_found s) _
      (require_some-Keeps refunds_of _ _ s)
      λ refund s₁.
        ap (λ (x : List Refund × List openseat.Store.WebhookEvent). x.0)
          (settle_in_tx-Keeps refund.order_id refund.amount_satang s₁)

settle_reference-Ends :
    (now : ℕ) (provider_id : Option ℕ) (later : ℕ) (other_id : Option ℕ) (refund_id : ℕ) (s : Store)
    → Ends
        (settle_reference now provider_id refund_id s)
        (λ _ s'. settle_reference later other_id refund_id s' ≡ (ok tt, s'))
unfolding settle_reference
settle_reference-Ends now provider_id later other_id refund_id s =
    continue-Ends (λ _ s₁. IsSettled refund_id s₁.refunds)
      (claim_refund refund_id RefundStatus.pending (settle_refund now provider_id) s) _ _
      (claim_refund-settles now provider_id refund_id s)
      λ claimed s₁ settled.
        Ends-mono _ _ ((if claimed then credited refund_id else return tt) s₁)
          (λ _ s₂. settled-inert later other_id refund_id s₂)
          (Keeps-Ends refunds_of (IsSettled refund_id) s₁
            ((if claimed then credited refund_id else return tt) s₁)
            (if-Keeps refunds_of {A = Unit {0}} claimed (credited refund_id) (return tt)
              (credited-refunds refund_id) (λ s₂. refl) s₁)
            settled)

-- When the settlement of a refund returned, settling it again, with any id of the provider, does
-- nothing: the amount is added to the order once.
pub settle_reference-once :
    (now later : ℕ) (provider_id other_id : Option ℕ) (refund_id : ℕ) (s s' : Store)
    → settle_reference now provider_id refund_id s ≡ (ok tt, s')
    → settle_reference later other_id refund_id s' ≡ (ok tt, s')
settle_reference-once now later provider_id other_id refund_id s s' settled =
    Ends-at _ settled (settle_reference-Ends now provider_id later other_id refund_id s)
