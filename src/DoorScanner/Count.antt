-- ===== src/DoorScanner/Count.antt =====
-- The scanner at the door and the API together.
use openseat.Base.{
  ℕ, ◌+◌, ◌≤◌, ◌≡◌, refl, ap, subst, inl, inr, Bool-cases, Option-cases, Option, none, some, List,
  [], ◌∷◌, if◌then◌else◌, length, length-take, ◌||◌, text_eq, trim, arith,
}
use openseat.Store.{Store, Text}
use openseat.Store.Action.{Result, ok, err, Error}
use openseat.Checkin.{CheckinResult, Outcome, check_in}
use openseat.Checkin.Counted.{admitted_in, HasIds, one_for, gain, Counted, check_in-Counted}
use openseat.DoorScanner.{
  Scanner, CheckinResponse, accepted, refused, begin_scan, finish_scan, show_response, push_entry,
  feed_limit, is_admitted, is_repeat,
}

-- A visit to the scanner: the text that it reads, when it reads it, and when the answer arrives.
pub record Visit : Type 0 where
  pub raw : Text
  pub now : ℕ
  pub later : ℕ

-- `message` is the text of an error, and `token_of` the token that a text names.
module _ (message : Error → Text) (token_of : Text → ℕ) (event_id user_id : ℕ) where
  abbrev answer_of : Result CheckinResult → CheckinResponse
  answer_of (ok r) = accepted r
  answer_of (err e) = refused (message e)

  -- One submission, its call of the API included.
  unfoldable pub scan : Visit → Scanner × Store → Scanner × Store
  unfolding begin_scan finish_scan check_in
  scan v (d, s) = elim (begin_scan v.raw v.now d) [
    | none ↦ (d, s)
    | some (token, d') ↦
        let answer = check_in v.now event_id user_id (token_of token) s in
        (finish_scan v.later (some (answer_of answer.0)) d', answer.1)
  ]

  unfoldable pub scan_all : List Visit → Scanner × Store → Scanner × Store
  unfolding scan
  scan_all [] x = x
  scan_all (v ∷ visits) x = scan_all visits (scan v x)

  record Agrees (x y : Scanner × Store) : Type 0 where
    total : y.0.admitted_here + admitted_in x.1 ≡ x.0.admitted_here + admitted_in y.1
    ids : HasIds y.1
    short : length y.0.feed ≤ feed_limit

  counted : (o : Outcome) → (if is_admitted o then 1 else 0) ≡ one_for o
  counted Outcome.checked_in = refl
  counted Outcome.already_checked_in = refl

  shown-gain :
      (later : ℕ) (r : Result CheckinResult) (d : Scanner)
      → ((finish_scan later (some (answer_of r)) d).admitted_here ≡ d.admitted_here + gain r)
        × (length (finish_scan later (some (answer_of r)) d).feed ≤ feed_limit)
  unfolding finish_scan show_response push_entry
  shown-gain later (ok r) d =
      (ap (λ n. d.admitted_here + n) (counted r.outcome), length-take feed_limit _)
  shown-gain later (err e) d = (omega arith, length-take feed_limit _)

  abbrev IsSame : Scanner → Option (Text × Scanner) → Type 0
  IsSame d none = Unit {0}
  IsSame d (some (token, d')) = d'.admitted_here ≡ d.admitted_here

  begin_scan-IsSame : (raw : Text) (now : ℕ) (d : Scanner) → IsSame d (begin_scan raw now d)
  unfolding begin_scan
  begin_scan-IsSame raw now d =
      elim (Bool-cases
        (text_eq (trim raw) [] || (d.busy || is_repeat (trim raw) now d.last_scan))) [
          | inl early ↦ rw early tt
          | inr fresh ↦ rw fresh refl
        ]

  scan-Agrees :
      (v : Visit) (d : Scanner) (s : Store)
      → HasIds s
      → length d.feed ≤ feed_limit
      → Agrees (d, s) (scan v (d, s))
  unfolding scan
  scan-Agrees v d s ids short = elim (Option-cases (begin_scan v.raw v.now d)) [
    | inl early ↦ rw (scan, early) (record { total = refl; ids = ids; short = short })
    | inr ((token, d'), begun) ↦
        let call = check_in v.now event_id user_id (token_of token) s in
        let counts : Counted s call =
          check_in-Counted v.now event_id user_id (token_of token) s ids in
        let same : IsSame d (some (token, d')) =
          subst (λ o. IsSame d o) begun (begin_scan-IsSame v.raw v.now d) in
        let shown = shown-gain v.later call.0 d' in
        rw (scan, begun)
          (record {
            total = omega (arith, shown.0, counts.0, same);
            ids = counts.1;
            short = shown.1;
          })
  ]

  scan_all-Agrees :
      (visits : List Visit) (d : Scanner) (s : Store)
      → HasIds s
      → length d.feed ≤ feed_limit
      → Agrees (d, s) (scan_all visits (d, s))
  unfolding scan_all
  scan_all-Agrees [] d s ids short = record { total = refl; ids = ids; short = short }
  scan_all-Agrees (v ∷ visits) d s ids short =
      let one = scan-Agrees v d s ids short in
      let rest = scan_all-Agrees visits (scan v (d, s)).0 (scan v (d, s)).1 one.ids one.short in
      record { total = omega (arith, one.total, rest.total); ids = rest.ids; short = rest.short }

  -- One scanner at the door, where the answers arrive, no two tickets have one id and the feed is at
  -- most 25 entries long: over any submissions, early returns and refusals included, its count grows by
  -- the number of tickets that become checked in, and the feed stays within 25 entries.
  pub scan_all-count :
      (visits : List Visit) (d : Scanner) (s : Store)
      → HasIds s
      → length d.feed ≤ feed_limit
      → ((scan_all visits (d, s)).0.admitted_here + admitted_in s
          ≡ d.admitted_here + admitted_in (scan_all visits (d, s)).1)
        × (length (scan_all visits (d, s)).0.feed ≤ feed_limit)
  scan_all-count visits d s ids short =
      let all = scan_all-Agrees visits d s ids short in (all.total, all.short)
