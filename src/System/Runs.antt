-- ===== src/System/Runs.antt =====
-- Rules for the actions whose store is reached by steps.
use openseat.Base.{Bool, true, false, Option, none, some, if◌then◌else◌}
use openseat.Store.{Store}
use openseat.Store.Action.{Action, Result, ok, err, Error, Reads, continue, require, require_some}
use openseat.System.{Reach, here, Reach-trans}

-- The action goes from any store to one that steps reach.
abbrev pub Runs : {A : Type 0} → Action A → Type 0
Runs m = (s : Store) → Reach s (m s).1

pub continue-Reach :
    {A B : Type 0} (s : Store) (r : Result A × Store) (f : A → Action B)
    → Reach s r.1
    → ((a : A) → Runs (f a))
    → Reach s (continue r f).1
continue-Reach s (ok a, s') f h k = Reach-trans h (k a s')
continue-Reach s (err e, s') f h k = h

-- After an action that only reads, the next one starts from the same store.
pub reads-Reach :
    {A B : Type 0} (Q : A → Type 0) (s : Store) (r : Result A × Store) (f : A → Action B)
    → Reads s r Q
    → ((a : A) → Q a → Reach s (f a s).1)
    → Reach s (continue r f).1
reads-Reach Q s (ok a, s') f (same, q) k = rw same (k a q)
reads-Reach Q s (err e, s') f same k = rw same here

pub require-Runs : (b : Bool) (e : Error) → Runs (require b e)
require-Runs true e s = here
require-Runs false e s = here

pub require_some-Runs : {A : Type 0} (o : Option A) (e : Error) → Runs (require_some o e)
require_some-Runs none e s = here
require_some-Runs (some a) e s = here

pub if-Runs : {A : Type 0} (b : Bool) (m k : Action A) → Runs m → Runs k → Runs (if b then m else k)
if-Runs true m k h g = h
if-Runs false m k h g = g
