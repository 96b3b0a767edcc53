-- ===== src/Outbox/Attempts.antt =====
-- The attempts of outbox rows.
use mathlib.Core.List.{reverse, reverse-cons}
use openseat.Base.{
  take, ℕ, zero, suc, some, ◌≤◌, ◌<◌, ◌≡◌, refl, Bool, true, false, List, [], ◌∷◌, if◌then◌else◌,
  All, All-append, arith, any, update, select, is_some, ◌==◌, Bool-cases, inl, inr, subst, sym,
}
use openseat.Store.{
  Store, OutboxEvent, OutboxPayload, ticket_issued, seats_sold, seats_released, order_updated,
  order_refunded,
}
use openseat.Store.Action.{
  Action, Ends, Ends-at, Result, ok, err, continue, require, return, record_not_found, bad_gateway,
  ◌>>=◌, ◌>>◌,
}
use openseat.Store.Keeps.{Keeps, require-Keeps, if-Keeps}
use openseat.Orders.{find_order}
use openseat.Outbox.{
  SendMail, max_attempts, batch_size, send_mail, handle, is_pending, is_unclaimed, add_attempt,
  claim_event, mark_event, deliver, dispatch_each, pending_batch, dispatch_pending,
}

-- Every event was attempted at most eight times.
abbrev pub IsBounded : Store → Type 0
IsBounded s = All (λ e. e.attempts ≤ max_attempts) s.outbox_events

abbrev outbox_of : Store → List OutboxEvent
outbox_of s = s.outbox_events

abbrev IsYoung : List OutboxEvent → Type 0
IsYoung = All (λ e. e.attempts < max_attempts)

claimed-bounded :
    (event : OutboxEvent) (es : List OutboxEvent)
    → event.attempts < max_attempts
    → All (λ e. e.attempts ≤ max_attempts) es
    → All (λ e. e.attempts ≤ max_attempts) (update (is_unclaimed event) add_attempt es)
unfolding update
claimed-bounded event [] young h = tt
claimed-bounded event (e ∷ es) young h =
    (ground (arith, h.0, young), claimed-bounded event es young h.1)

marked-bounded :
    (now event_id : ℕ) (es : List OutboxEvent)
    → All (λ e. e.attempts ≤ max_attempts) es
    → All
        (λ e. e.attempts ≤ max_attempts)
        (update (λ e. e.id == event_id) (λ e. record e { processed_at = some now }) es)
unfolding update
marked-bounded now event_id [] h = tt
marked-bounded now event_id (e ∷ es) h = (ground (arith, h.0), marked-bounded now event_id es h.1)

send_mail-Keeps :
    (mail : SendMail) (order_id : ℕ) (payload : OutboxPayload)
    → Keeps outbox_of (send_mail mail order_id payload)
unfolding send_mail
send_mail-Keeps mail order_id payload s =
    if-Keeps outbox_of {A = Unit {0}} (is_some (find_order order_id s))
      (require (mail payload) bad_gateway) (return tt)
      (require-Keeps outbox_of (mail payload) bad_gateway) (λ s₁. refl) s

handle-Keeps : (mail : SendMail) (payload : OutboxPayload) → Keeps outbox_of (handle mail payload)
unfolding handle
handle-Keeps mail (seats_sold e xs) s = refl
handle-Keeps mail (seats_released e xs) s = refl
handle-Keeps mail (order_updated o status) s = refl
handle-Keeps mail (ticket_issued o) s = send_mail-Keeps mail o (ticket_issued o) s
handle-Keeps mail (order_refunded o n) s = send_mail-Keeps mail o (order_refunded o n) s

claim_event-IsBounded :
    (event : OutboxEvent) (s : Store)
    → event.attempts < max_attempts
    → IsBounded s
    → IsBounded (claim_event event s).1
unfolding claim_event
claim_event-IsBounded event s young b =
    elim (Bool-cases (any (is_unclaimed event) s.outbox_events)) [
      | inr lost ↦ rw lost b
      | inl won ↦ rw won (claimed-bounded event s.outbox_events young b)
    ]

mark_event-IsBounded :
    (now event_id : ℕ) (s : Store) → IsBounded s → IsBounded (mark_event now event_id s).1
unfolding mark_event
mark_event-IsBounded now event_id s b =
    elim (Bool-cases (any (λ e. e.id == event_id) s.outbox_events)) [
      | inr gone ↦ rw gone b
      | inl found ↦ rw found (marked-bounded now event_id s.outbox_events b)
    ]

-- Rules for the chains of this file.
continue-IsBounded :
    {A B : Type 0} (r : Result A × Store) (f : A → Action B)
    → IsBounded r.1
    → ((a : A) (s : Store) → IsBounded s → IsBounded (f a s).1)
    → IsBounded (continue r f).1
continue-IsBounded (ok a, s) f h k = k a s h
continue-IsBounded (err e, s) f h k = h

caught-IsBounded :
    (r : Result Bool × Store)
    → IsBounded r.1
    → IsBounded (openseat.Store.Action.handle r (λ e. return false)).1
caught-IsBounded (ok a, s) h = h
caught-IsBounded (err e, s) h = h

deliver-IsBounded :
    (mail : SendMail) (now : ℕ) (event : OutboxEvent) (s : Store)
    → IsBounded s
    → IsBounded (deliver mail now event s).1
unfolding deliver
deliver-IsBounded mail now event s b = caught-IsBounded _ (
    continue-IsBounded (handle mail event.payload s) _
      (subst (All (λ e. e.attempts ≤ max_attempts)) (sym (handle-Keeps mail event.payload s)) b)
      λ _ s₁ b₁.
        continue-IsBounded (mark_event now event.id s₁) _ (mark_event-IsBounded now event.id s₁ b₁)
          (λ _ s₂ b₂. b₂))

dispatch_each-IsBounded :
    (mail : SendMail) (now : ℕ) (events : List OutboxEvent) (n : ℕ) (s : Store)
    → IsYoung events
    → IsBounded s
    → IsBounded (dispatch_each mail now events n s).1
unfolding dispatch_each
dispatch_each-IsBounded mail now [] n s young b = b
dispatch_each-IsBounded mail now (event ∷ events) n s young b =
    continue-IsBounded (claim_event event s) _ (claim_event-IsBounded event s young.0 b)
      λ claimed s₁ b₁.
        continue-IsBounded ((if claimed then deliver mail now event else return false) s₁) _
          (attempted claimed s₁ b₁)
          λ processed s₂ b₂. dispatch_each-IsBounded mail now events _ s₂ young.1 b₂
  where
    attempted :
        (claimed : Bool) (s₁ : Store)
        → IsBounded s₁
        → IsBounded ((if claimed then deliver mail now event else return false) s₁).1
    attempted true s₁ b₁ = deliver-IsBounded mail now event s₁ b₁
    attempted false s₁ b₁ = b₁

take-IsYoung : (n : ℕ) (es : List OutboxEvent) → IsYoung es → IsYoung (take n es)
unfolding take
take-IsYoung zero es h = tt
take-IsYoung (suc n) [] h = tt
take-IsYoung (suc n) (e ∷ es) h = (h.0, take-IsYoung n es h.1)

young_pending : (e : OutboxEvent) → is_pending e ≡ true → e.attempts < max_attempts
young_pending e h = ground (arith, h)

select-IsYoung : (es : List OutboxEvent) → IsYoung (select is_pending es)
unfolding select
select-IsYoung [] = tt
select-IsYoung (e ∷ es) = elim (Bool-cases (is_pending e)) [
  | inr done ↦ rw done (select-IsYoung es)
  | inl pending ↦ rw pending (young_pending e pending, select-IsYoung es)
]

reverse-IsYoung : (es : List OutboxEvent) → IsYoung es → IsYoung (reverse es)
reverse-IsYoung [] h = tt
reverse-IsYoung (e ∷ es) h = rw (reverse-cons e es) (
    All-append (λ x. x.attempts < max_attempts) (reverse es) (e ∷ []) (reverse-IsYoung es h.1)
      (h.0, tt))

claimed_once :
    (event : OutboxEvent) (es : List OutboxEvent)
    → any (is_unclaimed event) (update (is_unclaimed event) add_attempt es) ≡ false
unfolding any update
claimed_once event [] = refl
claimed_once event (e ∷ es) = ground (arith, claimed_once event es)

claim_event-Ends :
    (event : OutboxEvent) (s : Store)
    → Ends (claim_event event s) (λ _ s'. claim_event event s' ≡ (ok false, s'))
unfolding claim_event
claim_event-Ends event s = elim (Bool-cases (any (is_unclaimed event) s.outbox_events)) [
  | inr lost ↦ rw lost (rw lost refl)
  | inl won ↦ rw won (rw (claimed_once event s.outbox_events) refl)
]

-- If every event was attempted at most eight times, so it is after a run of the dispatcher, whatever
-- mail is refused.
pub dispatch_pending-IsBounded :
    (mail : SendMail) (now : ℕ) (s : Store)
    → IsBounded s
    → IsBounded (dispatch_pending mail now s).1
unfolding dispatch_pending pending_batch
dispatch_pending-IsBounded mail now s b =
    dispatch_each-IsBounded mail now (take batch_size (reverse (select is_pending s.outbox_events)))
      0 s (take-IsYoung batch_size _ (reverse-IsYoung _ (select-IsYoung s.outbox_events))) b

-- When a dispatcher claimed an event, another one that read the same row does not: the claim answers
-- false and does nothing.
pub claim_event-once :
    (event : OutboxEvent) (s s' : Store) (claimed : Bool)
    → claim_event event s ≡ (ok claimed, s')
    → claim_event event s' ≡ (ok false, s')
claim_event-once event s s' claimed returned = Ends-at _ returned (claim_event-Ends event s)
