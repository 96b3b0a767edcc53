-- ===== src/Admission/Split.antt =====
-- A text split at a separator.
use openseat.Base.{
  ℕ, ◌≡◌, refl, sym, ◌∙◌, ap, inl, inr, true, false, List, [], ◌∷◌, ◌++◌, ◌==◌, Bool-cases, any,
  All, arith,
}
use openseat.Store.{Text}
use openseat.Admission.{cons_head, split}

module _ (sep : ℕ) where
  abbrev pub Whole : Text → Type 0
  Whole w = any (λ c. c == sep) w ≡ false

  -- `join(sep)`
  abbrev pub join : List Text → Text
  join [] = []
  join (w ∷ []) = w
  join (w ∷ v ∷ ws) = w ++ (sep ∷ join (v ∷ ws))

  join-cons_head : (c : ℕ) (ws : List Text) → join (cons_head c ws) ≡ c ∷ join ws
  join-cons_head c [] = refl
  join-cons_head c (w ∷ []) = refl
  join-cons_head c (w ∷ v ∷ ws) = refl

  split-cons : (s : Text) → (w : Text) × (ws : List Text) × (split sep s ≡ w ∷ ws)
  unfolding split
  split-cons [] = ([], [], refl)
  split-cons (c ∷ s) = elim (Bool-cases (c == sep)) [
    | inl cut ↦ ([], split sep s, rw cut refl)
    | inr kept ↦ let (w, ws, e) = split-cons s in (c ∷ w, ws, rw (kept, e) refl)
  ]

  join-cut :
      (ps : List Text) (w : Text) (ws : List Text) → ps ≡ w ∷ ws → join ([] ∷ ps) ≡ sep ∷ join ps
  join-cut ps w ws e = rw e refl

  pub join-split : (s : Text) → join (split sep s) ≡ s
  unfolding split
  join-split [] = refl
  join-split (c ∷ s) = elim (Bool-cases (c == sep)) [
    | inr kept ↦ rw kept (join-cons_head c (split sep s) ∙ ap (λ (t : Text). c ∷ t) (join-split s))
    | inl cut ↦
        let (w, ws, e) = split-cons s in
        let same : c ≡ sep = ground arith in
        rw cut (
          join-cut (split sep s) w ws e
          ∙ ap (λ (t : Text). sep ∷ t) (join-split s)
          ∙ ap (λ (x : ℕ). x ∷ s) (sym same))
  ]

  cons_head-All :
      (c : ℕ) (ws : List Text) → (c == sep) ≡ false → All Whole ws → All Whole (cons_head c ws)
  unfolding any
  cons_head-All c [] other h = (ground (arith, other), tt)
  cons_head-All c (w ∷ ws) other h = (ground (arith, other, h.0), h.1)

  pub split-All : (s : Text) → All Whole (split sep s)
  unfolding split any
  split-All [] = (refl, tt)
  split-All (c ∷ s) = elim (Bool-cases (c == sep)) [
    | inl cut ↦ rw cut (refl, split-All s)
    | inr kept ↦ rw kept (cons_head-All c (split sep s) kept (split-All s))
  ]

  -- A whole word in front of a separator is the first part.
  pub split_word : (w s : Text) → Whole w → split sep (w ++ (sep ∷ s)) ≡ w ∷ split sep s
  unfolding split any
  split_word [] s h = let same : (sep == sep) ≡ true = ground arith in rw same refl
  split_word (c ∷ w) s h =
      let other : (c == sep) ≡ false = ground arith in
      rw (other, split_word w s (ground arith)) refl

  pub split_last : (w : Text) → Whole w → split sep w ≡ w ∷ []
  unfolding split any
  split_last [] h = refl
  split_last (c ∷ w) h =
      let other : (c == sep) ≡ false = ground arith in rw (other, split_last w (ground arith)) refl
