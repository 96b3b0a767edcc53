-- ===== src/Admission/Verified.antt =====
-- Which tokens admit to an on-sale event.
use openseat.Base.{
  ℕ, ◌*◌, ◌<◌, ◌≡◌, ◌↔◌, refl, sym, ap, ◌∙◌, ◌⊎◌, inl, inr, Bool, true, false, ◌&&◌, Option, none,
  some, List, [], ◌∷◌, ◌++◌, Bool-cases, Option-cases, is_just, text_eq, text_eq_iff, text_eq_refl,
  truthy, All, arith,
}
use openseat.Store.{Store, Text, Event}
use openseat.Store.Action.{continue, require, forbidden, return}
use openseat.Access.{find_event}
use openseat.Holds.Exclusive.{succeeds}
use openseat.Admission.{
  Claims, Crypto, split, in_time, is_current, verify_parts, verify_admission_token, is_admitted,
  can_activate,
}
use openseat.Admission.Split.{Whole, join, join-split, split-All, split_word, split_last}

module _ (crypto : Crypto) where
  open crypto use {hmac, decode}

  -- The token is a header, a payload and their digest under the secret, joined by dots, and the payload
  -- names the event and a time of expiry that is later than now.
  pub record Admitted (secret token : Text) (event_id now : ℕ) : Type 0 where
    pub head : Text
    pub payload : Text
    pub claims : Claims
    pub exp : ℕ
    pub parts : token ≡ join b'.' (head ∷ payload ∷ hmac secret (head ++ (b'.' ∷ payload)) ∷ [])
    pub head_whole : Whole b'.' head
    pub payload_whole : Whole b'.' payload
    pub digest_whole : Whole b'.' (hmac secret (head ++ (b'.' ∷ payload)))
    pub decoded : decode payload ≡ some claims
    pub event : claims.event_id ≡ some event_id
    pub expiry : claims.exp ≡ some exp
    pub timely : now < exp * 1000

  event_of : (o : Option ℕ) (e : ℕ) → is_just o e ≡ true → o ≡ some e
  event_of none e h = ground (arith, h)
  event_of (some x) e h = ground (arith, h)

  exp_of :
      (o : Option ℕ) (now : ℕ) → in_time o now ≡ true → (x : ℕ) × (o ≡ some x) × (now < x * 1000)
  exp_of none now h = ground (arith, h)
  exp_of (some x) now h = (x, refl, ground (arith, h))

  from_parts :
      (secret token : Text) (event_id now : ℕ) (ps : List Text)
      → All (Whole b'.') ps
      → join b'.' ps ≡ token
      → verify_parts crypto secret ps event_id now ≡ true
      → Admitted secret token event_id now
  unfolding verify_parts is_current
  from_parts secret token event_id now [] whole joined h = absurd (ground (arith, h))
  from_parts secret token event_id now (a ∷ []) whole joined h = absurd (ground (arith, h))
  from_parts secret token event_id now (a ∷ b ∷ []) whole joined h = absurd (ground (arith, h))
  from_parts secret token event_id now (a ∷ b ∷ c ∷ d ∷ ps) whole joined h =
      absurd (ground (arith, h))
  from_parts secret token event_id now (a ∷ b ∷ c ∷ []) whole joined h =
      elim (Option-cases (decode b)) [
        | inl broken ↦ absurd (ground (arith, broken, h))
        | inr (claims, decoded) ↦
            let signed : text_eq (hmac secret (a ++ (b'.' ∷ b))) c ≡ true = ground (arith, h) in
            let same : hmac secret (a ++ (b'.' ∷ b)) ≡ c = (text_eq_iff _ _).0 signed in
            let (exp, expiry, timely) = exp_of claims.exp now (ground (arith, decoded, h)) in
            record {
              head = a;
              payload = b;
              claims = claims;
              exp = exp;
              parts = sym joined ∙ rw (← same) refl;
              head_whole = whole.0;
              payload_whole = whole.1.0;
              digest_whole = rw same whole.1.1.0;
              decoded = decoded;
              event = event_of claims.event_id event_id (ground (arith, decoded, h));
              expiry = expiry;
              timely = timely;
            }
      ]

  current :
      (claims : Claims) (exp event_id now : ℕ)
      → claims.event_id ≡ some event_id
      → claims.exp ≡ some exp
      → now < exp * 1000
      → is_just claims.event_id event_id && in_time claims.exp now ≡ true
  current claims exp event_id now event expiry timely = ground (arith, event, expiry)

  -- The check of the token passes exactly for the tokens that the waiting room signs for the event with
  -- the same secret, until they expire.
  pub verify-Admitted :
      (secret token : Text) (event_id now : ℕ)
      → (verify_admission_token crypto secret token event_id now ≡ true)
        ↔ Admitted secret token event_id now
  unfolding verify_admission_token verify_parts is_current
  verify-Admitted secret token event_id now = (
    from_parts secret token event_id now (split b'.' token) (split-All b'.' token)
        (join-split b'.' token),
    λ a.
        let digest = hmac secret (a.head ++ (b'.' ∷ a.payload)) in
        let cut : split b'.' token ≡ a.head ∷ a.payload ∷ digest ∷ [] =
          ap (split b'.') a.parts
          ∙ split_word b'.' a.head (a.payload ++ (b'.' ∷ digest)) a.head_whole
          ∙ ap (λ (ws : List Text). a.head ∷ ws)
              (split_word b'.' a.payload digest a.payload_whole
                ∙ ap (λ (ws : List Text). a.payload ∷ ws)
                    (split_last b'.' digest a.digest_whole)) in
        rw (cut, text_eq_refl digest, a.decoded)
          (current a.claims a.exp event_id now a.event a.expiry a.timely),
  )

  Admitted-header :
      (now : ℕ) (secret : Text) (event_id : ℕ) (header : Option Text)
      → is_admitted crypto secret header event_id now ≡ true
      → (token : Text) × (header ≡ some token) × Admitted secret token event_id now
  Admitted-header now secret event_id none h = ground (arith, h)
  Admitted-header now secret event_id (some token) h =
      (token, refl, (verify-Admitted secret token event_id now).0 (ground (arith, h)))

  truthy_dotted : (w rest : Text) → truthy (some (w ++ (b'.' ∷ rest))) ≡ true
  unfolding truthy
  truthy_dotted [] rest = refl
  truthy_dotted (c ∷ w) rest = refl

  header-Admitted :
      (now : ℕ) (secret : Text) (event_id : ℕ) (token : Text)
      → Admitted secret token event_id now
      → is_admitted crypto secret (some token) event_id now ≡ true
  header-Admitted now secret event_id token a =
      let there : truthy (some token) ≡ true =
        ap (λ (t : Text). truthy (some t)) a.parts
        ∙ truthy_dotted a.head (a.payload ++ (b'.' ∷ hmac secret (a.head ++ (b'.' ∷ a.payload)))) in
      rw (there, (verify-Admitted secret token event_id now).1 a) refl

  passed :
      (b : Bool) (s : Store)
      → (succeeds (continue (require b (forbidden "ADMISSION_REQUIRED") s) (λ _. return true)).0
          ≡ true)
        ↔ (b ≡ true)
  passed true s = (λ h. refl, λ h. refl)
  passed false s = (λ h. ground (arith, h), λ h. ground (arith, h))

  -- An event in drop mode is entered with a token that admits to it, and with no other header; an event
  -- that is not, with any.
  pub can_activate-Admitted :
      (now : ℕ) (secret : Text) (event_id : ℕ) (header : Option Text) (event : Event) (s : Store)
      → find_event event_id s ≡ some event
      → (succeeds (can_activate crypto now secret (some event_id) header s).0 ≡ true) ↔ (
          (event.drop_mode ≡ false)
          ⊎ ((token : Text) × (header ≡ some token) × Admitted secret token event_id now))
  unfolding can_activate
  can_activate-Admitted now secret event_id header event s found =
      elim (Bool-cases event.drop_mode) [
        | inr free ↦ rw (found, free) (λ h. inl refl, λ h. refl)
        | inl drop ↦
            rw (found, drop)
              (
                λ h. inr (
                    Admitted-header now secret event_id header
                      ((passed (is_admitted crypto secret header event_id now) s).0 h)),
                λ h. (passed (is_admitted crypto secret header event_id now) s).1 (entered h),
              )
      ]
    where
      entered :
          (true ≡ false)
            ⊎ ((token : Text) × (header ≡ some token) × Admitted secret token event_id now)
          → is_admitted crypto secret header event_id now ≡ true
      entered (inl no_way) = absurd (ground (arith, no_way))
      entered (inr (token, e, a)) = rw e (header-Admitted now secret event_id token a)
