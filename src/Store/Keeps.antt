-- ===== src/Store/Keeps.antt =====
-- Rules for a view of the store that an action leaves as it was, whether it throws or not.
use openseat.Base.{◌≡◌, refl, Bool, true, false, Option, none, some, List, [], ◌∷◌, if◌then◌else◌}
use openseat.Store.{Store}
use openseat.Store.Action.{
  Action, Result, ok, err, Error, Ends, continue, require, require_some, for_each, roll_back,
  handle,
}

module _ {V : Type 0} (view : Store → V) where
  abbrev pub Keeps : {A : Type 0} → Action A → Type 0
  Keeps m = (s : Store) → view (m s).1 ≡ view s

  pub continue-Keeps :
      {A B : Type 0} (v : V) (r : Result A × Store) (f : A → Action B)
      → view r.1 ≡ v
      → ((a : A) → Keeps (f a))
      → view (continue r f).1 ≡ v
  continue-Keeps v (ok a, s') f h k = rw (k a s') h
  continue-Keeps v (err e, s') f h k = h

  pub require-Keeps : (b : Bool) (e : Error) → Keeps (require b e)
  require-Keeps true e s = refl
  require-Keeps false e s = refl

  pub require_some-Keeps : {A : Type 0} (o : Option A) (e : Error) → Keeps (require_some o e)
  require_some-Keeps none e s = refl
  require_some-Keeps (some a) e s = refl

  pub if-Keeps :
      {A : Type 0} (b : Bool) (m k : Action A) → Keeps m → Keeps k → Keeps (if b then m else k)
  if-Keeps true m k h g = h
  if-Keeps false m k h g = g

  pub for_each-Keeps :
      {A : Type 0} (xs : List A) (f : A → Action (Unit {0}))
      → ((x : A) → Keeps (f x))
      → Keeps (for_each xs f)
  for_each-Keeps [] f h s = refl
  for_each-Keeps (x ∷ xs) f h s =
      continue-Keeps (view s) (f x s) _ (h x s) (λ _. for_each-Keeps xs f h)

  pub roll_back-Keeps :
      {A : Type 0} (s : Store) (r : Result A × Store)
      → view r.1 ≡ view s
      → view (roll_back s r).1 ≡ view s
  roll_back-Keeps s (ok a, s') h = h
  roll_back-Keeps s (err e, s') h = refl

  pub handle-Keeps :
      {A : Type 0} (v : V) (r : Result A × Store) (f : Error → Action A)
      → view r.1 ≡ v
      → ((e : Error) → Keeps (f e))
      → view (handle r f).1 ≡ v
  handle-Keeps v (ok a, s') f h k = h
  handle-Keeps v (err e, s') f h k = rw (k e s') h

  -- What holds of a view still holds after an action that keeps it.
  pub Keeps-Ends :
      {A : Type 0} (P : V → Type 0) (s : Store) (r : Result A × Store)
      → view r.1 ≡ view s
      → P (view s)
      → Ends r (λ _ s'. P (view s'))
  Keeps-Ends P s (ok a, s') h p = rw h p
  Keeps-Ends P s (err e, s') h p = tt
