-- ===== src/Holds/Sweep.antt =====
-- The sweeper.
use openseat.Base.{
  ℕ, ◌≡◌, refl, List, [], ◌∷◌, ◌++◌, map, if◌then◌else◌, ◌==◌, select, delete, length, ltb, ◌||◌,
  is_some, arith, inl, inr, Bool-cases, sym, ◌∙◌,
}
use mathlib.Core.List.{append_assoc, append-nil}
use openseat.Store.{Store, Hold}
use openseat.Store.Action.{for_each, continue, return}
use openseat.Holds.{
  add_to_group, by_event, sweep_expired, is_sweepable, seats_changed, released_change,
}

-- The seats of an event in a grouping.
abbrev pub group_of : ℕ → List (ℕ × List ℕ) → List ℕ
group_of k [] = []
group_of k ((j, vs) ∷ m) = if j == k then vs else group_of k m

abbrev seats_in : ℕ → List Hold → List ℕ
seats_in k hs = map (λ h. h.seat_id) (select (λ h. h.event_id == k) hs)

group_of-add_to_group :
    (k j v : ℕ) (m : List (ℕ × List ℕ))
    → group_of k (add_to_group j v m) ≡ (if j == k then group_of k m ++ v ∷ [] else group_of k m)
unfolding add_to_group
group_of-add_to_group k j v [] = ground arith
group_of-add_to_group k j v ((i, vs) ∷ m) = ground (arith, group_of-add_to_group k j v m)

grouped :
    (k : ℕ) (m : List (ℕ × List ℕ)) (hs : List Hold)
    → group_of k (by_event m hs) ≡ group_of k m ++ seats_in k hs
unfolding by_event select
grouped k m [] = sym (append-nil (group_of k m))
grouped k m (h ∷ hs) = elim (Bool-cases (h.event_id == k)) [
  | inr other ↦
      rw
        (
          other,
          grouped k (add_to_group h.event_id h.seat_id m) hs,
          group_of-add_to_group k h.event_id h.seat_id m,
          other,
        )
        refl
  | inl same ↦
      rw
        (
          same,
          grouped k (add_to_group h.event_id h.seat_id m) hs,
          group_of-add_to_group k h.event_id h.seat_id m,
          same,
        )
        (append_assoc (group_of k m) (h.seat_id ∷ []) (seats_in k hs))
]

-- The seats in the group of an event are those of its holds, in their order.
pub by_event-groups :
    (k : ℕ) (hs : List Hold)
    → group_of k (by_event [] hs) ≡ map (λ h. h.seat_id) (select (λ h. h.event_id == k) hs)
by_event-groups k hs = grouped k [] hs

notify-holds :
    (groups : List (ℕ × List ℕ)) (s : Store)
    → (for_each groups (λ g. seats_changed g.0 (released_change g.1)) s).1.holds ≡ s.holds
notify-holds [] s = refl
notify-holds (g ∷ groups) s = notify-holds groups _

kept :
    (now : ℕ) (hs : List Hold)
    → delete (is_sweepable now) hs ≡ select (λ h. is_some h.order_id || ltb now h.expires_at) hs
unfolding delete select
kept now [] = refl
kept now (h ∷ hs) = ground (arith, kept now hs)

-- After the sweep, the holds are those that are bound to an order or end later than now.
pub sweep_expired-holds :
    (now : ℕ) (s : Store)
    → (sweep_expired now s).1.holds
      ≡ select (λ h. is_some h.order_id || ltb now h.expires_at) s.holds
unfolding sweep_expired
sweep_expired-holds now s =
    let swept : Store = record s { holds = delete (is_sweepable now) s.holds } in
    after (by_event [] (select (is_sweepable now) s.holds)) swept ∙ kept now s.holds
  where
    after :
        (groups : List (ℕ × List ℕ)) (s₁ : Store)
        → (continue
            (for_each groups (λ g. seats_changed g.0 (released_change g.1)) s₁)
            (λ _. return (length (select (is_sweepable now) s.holds)))).1.holds
          ≡ s₁.holds
    after [] s₁ = refl
    after (g ∷ groups) s₁ = after groups _
