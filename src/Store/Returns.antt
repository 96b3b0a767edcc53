-- ===== src/Store/Returns.antt =====
-- Total correctness of an action: it returns, and its result and store satisfy a predicate.
use openseat.Base.{List, [], ◌∷◌}
use openseat.Store.{Store}
use openseat.Store.Action.{Action, Result, ok, err, continue, roll_back, for_each}

abbrev pub Returns : {A : Type 0} → Result A × Store → (A → Store → Type 0) → Type 0
Returns (ok a, s) Q = Q a s
Returns (err e, s) Q = ⊥

pub continue-Returns :
    {A B : Type 0} (Q : A → Store → Type 0) (r : Result A × Store) (f : A → Action B)
    (R : B → Store → Type 0)
    → Returns r Q
    → ((a : A) (s : Store) → Q a s → Returns (f a s) R)
    → Returns (continue r f) R
continue-Returns Q (ok a, s) f R h k = k a s h
continue-Returns Q (err e, s) f R h k = absurd h

pub roll_back-Returns :
    {A : Type 0} (Q : A → Store → Type 0) (s : Store) (r : Result A × Store)
    → Returns r Q
    → Returns (roll_back s r) Q
roll_back-Returns Q s (ok a, s') h = h
roll_back-Returns Q s (err e, s') h = absurd h

-- The invariant of a loop says which elements are left.
pub for_each-Returns :
    {A : Type 0} (Q : List A → Store → Type 0) (f : A → Action (Unit {0})) (xs : List A) (s : Store)
    → ((x : A) (rest : List A) (s : Store) → Q (x ∷ rest) s → Returns (f x s) (λ _ s'. Q rest s'))
    → Q xs s
    → Returns (for_each xs f s) (λ _ s'. Q [] s')
for_each-Returns Q f [] s step q = q
for_each-Returns Q f (x ∷ xs) s step q =
    continue-Returns (λ _ s'. Q xs s') (f x s) _ _ (step x xs s q)
      (λ _ s' q'. for_each-Returns Q f xs s' step q')

pub Returns-mono :
    {A : Type 0} (Q R : A → Store → Type 0) (r : Result A × Store)
    → ((a : A) (s : Store) → Q a s → R a s)
    → Returns r Q
    → Returns r R
Returns-mono Q R (ok a, s) f h = f a s h
Returns-mono Q R (err e, s) f h = absurd h
