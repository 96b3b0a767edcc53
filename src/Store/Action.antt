-- ===== src/Store/Action.antt =====
-- Effects of a service method: it reads and writes the store, and may throw. What was written
-- before a throw stays, except in a transaction.
use openseat.Base.{
  ℕ, String, List, ◌∷◌, Option, none, some, Bool, true, false, suc, ◌≡◌, refl, subst,
}
use openseat.Store.{Store}

-- The exceptions of @nestjs/common with their message or code, and the database's: a unique
-- violation is Prisma's P2002, `record_not_found` is what an `…OrThrow` or `update` throws.
pub data Error : Type 0 where
  bad_request not_found forbidden conflict unauthorized service_unavailable : String → Error
  bad_gateway unique_violation check_violation record_not_found : Error

pub data Result {ℓ} (A : Type ℓ) : Type ℓ where
  ok : A → Result A
  err : Error → Result A

abbrev pub Action : Type 0 → Type 0
Action A = Store → Result A × Store

abbrev pub continue : {A B : Type 0} → Result A × Store → (A → Action B) → Result B × Store
continue (ok a, s) f = f a s
continue (err e, s) f = (err e, s)

infixl 5 ◌>>=◌ ◌>>◌
abbrev pub ◌>>=◌ : {A B : Type 0} → Action A → (A → Action B) → Action B
◌>>=◌ m f s = continue (m s) f

abbrev pub ◌>>◌ : {B : Type 0} → Action (Unit {0}) → Action B → Action B
◌>>◌ m k s = continue (m s) (λ _. k)

abbrev pub return : {A : Type 0} → A → Action A
return a s = (ok a, s)

abbrev pub throw : {A : Type 0} → Error → Action A
throw e s = (err e, s)

abbrev pub read : {A : Type 0} → (Store → A) → Action A
read f s = (ok (f s), s)

abbrev pub write : (Store → Store) → Action (Unit {0})
write f s = (ok tt, f s)

-- `if (!test) throw e`
abbrev pub require : Bool → Error → Action (Unit {0})
require true e s = (ok tt, s)
require false e s = (err e, s)

-- `if (!found) throw e`
abbrev pub require_some : {A : Type 0} → Option A → Error → Action A
require_some none e s = (err e, s)
require_some (some a) e s = (ok a, s)

abbrev pub roll_back : {A : Type 0} → Store → Result A × Store → Result A × Store
roll_back s (ok a, s') = (ok a, s')
roll_back s (err e, s') = (err e, s)

-- `$transaction(m)`: all of it or, if it throws, nothing.
abbrev pub transaction : {A : Type 0} → Action A → Action A
transaction m s = roll_back s (m s)

abbrev pub handle : {A : Type 0} → Result A × Store → (Error → Action A) → Result A × Store
handle (ok a, s) f = (ok a, s)
handle (err e, s) f = f e s

-- `try { m } catch (error) { f }`
abbrev pub catch : {A : Type 0} → Action A → (Error → Action A) → Action A
catch m f s = handle (m s) f

abbrev pub for_each : {A : Type 0} → List A → (A → Action (Unit {0})) → Action (Unit {0})
for_each List.[] f s = (ok tt, s)
for_each (x ∷ xs) f s = continue (f x s) (λ _. for_each xs f)

-- A new id or random token.
abbrev pub fresh_id : Action ℕ
fresh_id s = (ok s.next_id, record s { next_id = suc s.next_id })

-- What holds of the result and the store if the action does not throw.
abbrev pub Ends : {A : Type 0} → Result A × Store → (A → Store → Type 0) → Type 0
Ends (ok a, s) Q = Q a s
Ends (err e, s) Q = Unit

-- What holds of the end of a run that is known to return.
pub Ends-at :
    {A : Type 0} (Q : A → Store → Type 0) {r : Result A × Store} {a : A} {s' : Store}
    → r ≡ (ok a, s')
    → Ends r Q
    → Q a s'
Ends-at Q returned h = subst (λ r. Ends r Q) returned h

pub anything : {A : Type 0} (r : Result A × Store) → Ends r (λ _ _. Unit {0})
anything (ok a, s') = tt
anything (err e, s') = tt

pub continue-Ends :
    {A B : Type 0} (Q : A → Store → Type 0) (r : Result A × Store) (f : A → Action B)
    (R : B → Store → Type 0)
    → Ends r Q
    → ((a : A) (s : Store) → Q a s → Ends (f a s) R)
    → Ends (continue r f) R
continue-Ends Q (ok a, s) f R h k = k a s h
continue-Ends Q (err e, s) f R h k = tt

-- After a check, for the action that follows when it passes.
pub require-Ends :
    {B : Type 0} (test : Bool) (e : Error) (s : Store) (f : Unit {0} → Action B)
    (R : B → Store → Type 0)
    → (test ≡ true → Ends (f tt s) R)
    → Ends (continue (require test e s) f) R
require-Ends true e s f R k = k refl
require-Ends false e s f R k = tt

-- A transaction that throws leaves the store as it was.
pub roll_back-keeps :
    {A : Type 0} (P : Store → Type 0) (s : Store) (r : Result A × Store)
    → P s
    → Ends r (λ _ s'. P s')
    → P (roll_back s r).1
roll_back-keeps P s (ok a, s') p h = h
roll_back-keeps P s (err e, s') p h = p

pub roll_back-Ends :
    {A : Type 0} (Q : A → Store → Type 0) (s : Store) (r : Result A × Store)
    → Ends r Q
    → Ends (roll_back s r) Q
roll_back-Ends Q s (ok a, s') h = h
roll_back-Ends Q s (err e, s') h = tt

pub for_each-Ends :
    {A : Type 0} (Q : List A → Store → Type 0) (f : A → Action (Unit {0})) (xs : List A) (s : Store)
    → ((x : A) (rest : List A) (s : Store) → Q (x ∷ rest) s → Ends (f x s) (λ _ s'. Q rest s'))
    → Q xs s
    → Ends (for_each xs f s) (λ _ s'. Q List.[] s')
for_each-Ends Q f List.[] s step q = q
for_each-Ends Q f (x ∷ xs) s step q =
    continue-Ends (λ _ s'. Q xs s') (f x s) _ _ (step x xs s q)
      (λ _ s' q'. for_each-Ends Q f xs s' step q')

pub Ends-mono :
    {A : Type 0} (Q R : A → Store → Type 0) (r : Result A × Store)
    → ((a : A) (s : Store) → Q a s → R a s)
    → Ends r Q
    → Ends r R
Ends-mono Q R (ok a, s) f h = f a s h
Ends-mono Q R (err e, s) f h = tt

-- The action only reads; `Q` holds of what it returns.
abbrev pub Reads : {A : Type 0} → Store → Result A × Store → (A → Type 0) → Type 0
Reads s (ok a, s') Q = (s' ≡ s) × Q a
Reads s (err e, s') Q = s' ≡ s

pub continue-Reads :
    {A B : Type 0} (Q : A → Type 0) (s : Store) (r : Result A × Store) (f : A → Action B)
    (R : B → Type 0)
    → Reads s r Q
    → ((a : A) → Q a → Reads s (f a s) R)
    → Reads s (continue r f) R
continue-Reads Q s (ok a, s') f R (same, q) k = rw same (k a q)
continue-Reads Q s (err e, s') f R same k = same

pub Reads-mono :
    {A : Type 0} (Q R : A → Type 0) (s : Store) (r : Result A × Store)
    → ((a : A) → Q a → R a)
    → Reads s r Q
    → Reads s r R
Reads-mono Q R s (ok a, s') f (same, q) = (same, f a q)
Reads-mono Q R s (err e, s') f same = same
