-- ===== src/Dashboard/Timeline/Days.antt =====
-- The days of a timeline.
use openseat.Base.{
  ℕ, zero, suc, ◌+◌, ◌*◌, ◌≤◌, ◌<◌, ◌≡◌, refl, inl, inr, true, false, some, List, [], ◌∷◌, ◌==◌,
  leb, Bool-cases, count, All, All-mono, length, arith,
}
use openseat.Dashboard.Timeline.{TimelineBucket, day_ms, empty_bucket, buckets_from}

-- The buckets of a range of days.
pub record IsRange (cursor end : ℕ) (bs : List TimelineBucket) : Type 0 where
  pub days : All (λ b. (cursor ≤ b.day) × (b.day ≤ end)) bs
  pub empty : All (λ b. (b.orders ≡ 0) × (b.tickets_sold ≡ 0) × (b.gross_satang ≡ 0)) bs
  pub one :
      (k : ℕ) → cursor ≤ k * day_ms → k * day_ms ≤ end → count (λ b. b.day == k * day_ms) bs ≡ 1

none_at :
    (day low : ℕ) (bs : List TimelineBucket)
    → day < low
    → All (λ b. low ≤ b.day) bs
    → count (λ b. b.day == day) bs ≡ 0
unfolding count
none_at day low [] lt h = refl
none_at day low (b ∷ bs) lt h = ground (arith, none_at day low bs lt h.1, h.0)

IsRange-nil : (cursor end : ℕ) → end < cursor → IsRange cursor end []
unfolding count
IsRange-nil cursor end past = record {
  days = tt;
  empty = tt;
  one = λ k low high. absurd (omega arith);
}

one-cons :
    (first end k : ℕ) (bs : List TimelineBucket)
    → IsRange (suc first * day_ms) end bs
    → first * day_ms ≤ k * day_ms
    → k * day_ms ≤ end
    → count (λ b. b.day == k * day_ms) (empty_bucket (first * day_ms) ∷ bs) ≡ 1
unfolding count
one-cons first end k bs r low high = elim (Bool-cases (first * day_ms == k * day_ms)) [
  | inl same ↦
      let e : first ≡ k = ground arith in
      rw same (
        omega (
          arith,
          none_at (k * day_ms) (suc first * day_ms) bs (omega arith)
              (All-mono bs (λ b h. h.0) r.days),
        ))
  | inr other ↦
      let later : suc first * day_ms ≤ k * day_ms = ground arith in
      rw other (omega (arith, r.one k later high))
]

IsRange-cons :
    (first end : ℕ) (bs : List TimelineBucket)
    → first * day_ms ≤ end
    → IsRange (suc first * day_ms) end bs
    → IsRange (first * day_ms) end (empty_bucket (first * day_ms) ∷ bs)
IsRange-cons first end bs within r = record {
  days = ((omega arith, within), All-mono bs (λ b h. (omega (arith, h.0), h.1)) r.days);
  empty = ((refl, refl, refl), r.empty);
  one = λ k low high. one-cons first end k bs r low high;
}

-- The buckets of the loop, with as many rounds as there are days and one for the last test.
pub record Made (fuel first end : ℕ) : Type 0 where
  pub bs : List TimelineBucket
  pub made : buckets_from (suc fuel) (first * day_ms) end ≡ some bs
  pub few : length bs ≤ fuel
  pub range : IsRange (first * day_ms) end bs

-- From the first millisecond of a day, and with more rounds than days, the loop ends.
pub buckets_from-Made : (fuel first end : ℕ) → end < (first + fuel) * day_ms → Made fuel first end
unfolding buckets_from
buckets_from-Made zero first end h =
    let past : leb (first * day_ms) end ≡ false = ground arith in
    record {
      bs = [];
      made = rw past refl;
      few = omega arith;
      range = IsRange-nil (first * day_ms) end (omega arith);
    }
buckets_from-Made (suc fuel) first end h = elim (Bool-cases (leb (first * day_ms) end)) [
  | inr past ↦ record {
    bs = [];
    made = rw past refl;
    few = omega arith;
    range = IsRange-nil (first * day_ms) end (ground arith);
  }
  | inl within ↦ longer (ground arith) (buckets_from-Made fuel (suc first) end (omega arith))
]
  where
    longer : first * day_ms ≤ end → Made fuel (suc first) end → Made (suc fuel) first end
    longer within m =
        let next : suc first * day_ms ≡ first * day_ms + day_ms = omega arith in
        let test : leb (first * day_ms) end ≡ true = ground arith in
        record {
          bs = empty_bucket (first * day_ms) ∷ m.bs;
          made = rw (test, ← next, m.made) refl;
          few = omega (arith, m.few);
          range = IsRange-cons first end m.bs within m.range;
        }
