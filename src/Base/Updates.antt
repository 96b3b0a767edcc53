-- ===== src/Base/Updates.antt =====
-- Updates of rows: what a second query sees after them.
use Prim.Native.Nat.{ℕ, zero, suc, ◌≤◌}
use mathlib.Core.Path.{◌≡◌, refl}
use mathlib.Core.Bool.{Bool, true, false}
use mathlib.Core.Option
use mathlib.Core.Option.{Option, none, some}
use mathlib.Core.List.{List, [], ◌∷◌}
use native.Mathlib.Omega.{arith}
use openseat.Base.Tests.{if◌then◌else◌, is_some, Bool-cases}
use mathlib.Core.Logic.{inl, inr}
use openseat.Base.Lists.{All, length}
use openseat.Base.Rows.{find, update, delete, any, take, count, select}

module _ {ℓ} {A : Type ℓ} where
  -- A test that the change makes false hits no updated row.
  pub any-update :
      (p : A → Bool) (f : A → A)
      → ((x : A) → p (f x) ≡ false)
      → (xs : List A) → any p (update p f xs) ≡ false
  unfolding any update
  any-update p f off [] = refl
  any-update p f off (x ∷ xs) = ground (arith, off x, any-update p f off xs)

  -- A test that the change does not see.
  pub any-update_blind :
      (q p : A → Bool) (f : A → A)
      → ((x : A) → q (f x) ≡ q x)
      → (xs : List A) → any q (update p f xs) ≡ any q xs
  unfolding any update
  any-update_blind q p f blind [] = refl
  any-update_blind q p f blind (x ∷ xs) = ground (arith, blind x, any-update_blind q p f blind xs)

  pub find-update :
      (q p : A → Bool) (f : A → A)
      → ((x : A) → q (f x) ≡ q x)
      → (xs : List A)
      → find q (update p f xs) ≡ Option.map (λ x. if p x then f x else x) (find q xs)
  unfolding find update
  find-update q p f blind [] = refl
  find-update q p f blind (x ∷ xs) = ground (arith, blind x, find-update q p f blind xs)

  pub is_some-find : (p : A → Bool) (xs : List A) → is_some (find p xs) ≡ any p xs
  unfolding find any
  is_some-find p [] = refl
  is_some-find p (x ∷ xs) = ground (arith, is_some-find p xs)

  -- What is found satisfies the test.
  pub find_holds : (p : A → Bool) (xs : List A) (x : A) → find p xs ≡ some x → p x ≡ true
  unfolding find
  find_holds p [] x found = ground arith
  find_holds p (y ∷ xs) x found = ground (arith, find_holds p xs x, found)

  pub any-delete : (p : A → Bool) (xs : List A) → any p (delete p xs) ≡ false
  unfolding any delete
  any-delete p [] = refl
  any-delete p (x ∷ xs) = ground (arith, any-delete p xs)

  pub find-delete :
      (q p : A → Bool) → (xs : List A) → any q xs ≡ false → any q (delete p xs) ≡ false
  unfolding any delete
  find-delete q p [] h = refl
  find-delete q p (x ∷ xs) h = ground (arith, find-delete q p xs)

  later :
      (p : A → Bool) (x : A) (xs : List A) → p x ≡ false → any p (x ∷ xs) ≡ true → any p xs ≡ true
  unfolding any
  later p x xs miss h = ground arith

  -- A test that hits a row finds one.
  pub find-any :
      (p : A → Bool) (xs : List A) → any p xs ≡ true → (x : A) × (find p xs ≡ some x) × (p x ≡ true)
  unfolding find any
  find-any p [] h = ground (arith, h)
  find-any p (x ∷ xs) h = elim (Bool-cases (p x)) [
    | inl hit ↦ (x, rw hit refl, hit)
    | inr miss ↦
        let (y, found, holds) : (y : A) × (find p xs ≡ some y) × (p y ≡ true) =
          find-any p xs (later p x xs miss h) in
        (y, rw miss found, holds)
  ]

  -- A predicate that the change keeps holds of all rows after it.
  pub All-update {κ} :
      (P : A → Type κ) (p : A → Bool) (f : A → A)
      → ((x : A) → P x → P (f x))
      → (xs : List A) → All P xs
      → All P (update p f xs)
  unfolding update
  All-update P p f keep [] h = tt
  All-update P p f keep (x ∷ xs) h = (
    elim (p x) as (λ b. P (if b then f x else x)) [ true ↦ keep x h.0 | false ↦ h.0 ],
    All-update P p f keep xs h.1,
  )

  pub All-select {κ} :
      (P : A → Type κ) (p : A → Bool) → (xs : List A) → All P xs → All P (select p xs)
  unfolding select
  All-select P p [] h = tt
  All-select P p (x ∷ xs) h = elim (Bool-cases (p x)) [
    | inl hit ↦ rw hit (h.0, All-select P p xs h.1)
    | inr miss ↦ rw miss (All-select P p xs h.1)
  ]

  -- An update that hits no row.
  pub update-none :
      (p : A → Bool) (f : A → A) → (xs : List A) → any p xs ≡ false → update p f xs ≡ xs
  unfolding any update
  update-none p f [] h = refl
  update-none p f (x ∷ xs) h = elim (Bool-cases (p x)) [
    | inl hit ↦ ground (arith, hit, h)
    | inr miss ↦
        let rest : any p xs ≡ false = ground (arith, miss, h) in
        rw (miss, update-none p f xs rest) refl
  ]

  pub length-take : (n : ℕ) (xs : List A) → length (take n xs) ≤ n
  unfolding take
  length-take zero xs = ground arith
  length-take (suc n) [] = ground arith
  length-take (suc n) (x ∷ xs) = omega (arith, length-take n xs)

  pub count-update_blind :
      (q p : A → Bool) (f : A → A)
      → ((x : A) → q (f x) ≡ q x)
      → (xs : List A) → count q (update p f xs) ≡ count q xs
  unfolding count update
  count-update_blind q p f blind [] = refl
  count-update_blind q p f blind (x ∷ xs) =
      ground (arith, blind x, count-update_blind q p f blind xs)
