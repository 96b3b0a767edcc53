-- ===== src/Events/Slug.antt =====
-- `slugify` of apps/api/src/events/events.service.ts. The Unicode tables of the language are a parameter.
use mathlib.Core.List.{reverse}
use openseat.Base.{
  All-reverse, ℕ, zero, suc, ◌≤◌, ◌≡◌, ◌≢◌, refl, ◌⊎◌, inl, inr, Bool, true, false, Bool-cases, [],
  ◌∷◌, if◌then◌else◌, ◌==◌, length, All, All-mono, codes, slice, arith,
}
use openseat.Store.{Text}

-- `toLowerCase`, `normalize('NFKD')` and the classes `\p{Letter}\p{Number}`
pub record Unicode : Type 0 where
  pub to_lower_case : Text → Text
  pub normalize : Text → Text
  pub is_word : ℕ → Bool
  pub event_is_word : All (λ c. is_word c ≡ true) (codes "event")

-- `replace(/^-+/, '')`
unfoldable pub drop_dashes : Text → Text
drop_dashes [] = []
drop_dashes (c ∷ s) = if c == b'-' then drop_dashes s else c ∷ s

unfoldable pub strip_dashes : Text → Text
unfolding drop_dashes
strip_dashes s = reverse (drop_dashes (reverse (drop_dashes s)))

-- `base || 'event'`
unfoldable pub or_event : Text → Text
or_event [] = codes "event"
or_event (c ∷ s) = c ∷ s

slice-length : (n : ℕ) (s : Text) → length (slice n s) ≤ n
unfolding slice
slice-length zero s = omega arith
slice-length (suc n) [] = omega arith
slice-length (suc n) (c ∷ s) = omega (arith, slice-length n s)

module _ (u : Unicode) where
  open u use {to_lower_case, normalize, is_word, event_is_word}

  -- `replace(/[^\p{Letter}\p{Number}]+/gu, '-')`; the flag says that a run has begun.
  unfoldable pub collapse : Bool → Text → Text
  collapse in_run [] = []
  collapse in_run (c ∷ s) =
      let kept = c ∷ collapse false s in
      let run = collapse true s in if is_word c then kept else if in_run then run else b'-' ∷ run

  unfoldable pub slugify : Text → Text
  unfolding collapse strip_dashes slice or_event
  slugify title =
      or_event (slice 60 (strip_dashes (collapse false (normalize (to_lower_case title)))))

  abbrev IsSlugChar : ℕ → Type 0
  IsSlugChar c = (is_word c ≡ true) ⊎ (c ≡ b'-')

  collapse-All : (in_run : Bool) (s : Text) → All IsSlugChar (collapse in_run s)
  unfolding collapse
  collapse-All in_run [] = tt
  collapse-All in_run (c ∷ s) = elim (Bool-cases (is_word c)) [
    | inl word ↦ rw word (inl word, collapse-All false s)
    | inr other ↦ rw other (run in_run (collapse-All true s))
  ]
    where
      run :
          (in_run : Bool)
          → All IsSlugChar (collapse true s)
          → All IsSlugChar (if in_run then collapse true s else b'-' ∷ collapse true s)
      run true h = h
      run false h = (inr refl, h)

  drop_dashes-All : (s : Text) → All IsSlugChar s → All IsSlugChar (drop_dashes s)
  unfolding drop_dashes
  drop_dashes-All [] h = tt
  drop_dashes-All (c ∷ s) h = elim (Bool-cases (c == b'-')) [
    | inl dash ↦ rw dash (drop_dashes-All s h.1)
    | inr other ↦ rw other h
  ]

  slice-All : (n : ℕ) (s : Text) → All IsSlugChar s → All IsSlugChar (slice n s)
  unfolding slice
  slice-All zero s h = tt
  slice-All (suc n) [] h = tt
  slice-All (suc n) (c ∷ s) h = (h.0, slice-All n s h.1)

  or_event-IsSlug :
      (s : Text)
      → length s ≤ 60
      → All IsSlugChar s
      → (or_event s ≢ []) × (length (or_event s) ≤ 60) × All IsSlugChar (or_event s)
  unfolding or_event
  or_event-IsSlug [] short h = (
    λ e. cc e,
    omega arith,
    All-mono {P = λ c. is_word c ≡ true} {Q = IsSlugChar} (codes "event") (λ c word. inl word)
        event_is_word,
  )
  or_event-IsSlug (c ∷ s) short h = (λ e. cc e, short, h)

  -- The slug of any title has from 1 to 60 code units, each a letter, a digit or a dash.
  pub slugify-IsSlug :
      (title : Text)
      → (slugify title ≢ []) × (length (slugify title) ≤ 60) × All IsSlugChar (slugify title)
  unfolding slugify strip_dashes
  slugify-IsSlug title =
      let text = collapse false (normalize (to_lower_case title)) in
      or_event-IsSlug (slice 60 (strip_dashes text)) (slice-length 60 (strip_dashes text)) (
        slice-All 60 (strip_dashes text) (
          All-reverse IsSlugChar (drop_dashes (reverse (drop_dashes text))) (
            drop_dashes-All (reverse (drop_dashes text)) (
              All-reverse IsSlugChar (drop_dashes text)
                (drop_dashes-All text (collapse-All false (normalize (to_lower_case title))))))))
