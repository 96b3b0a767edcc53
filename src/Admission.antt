-- ===== src/Admission.antt =====
-- apps/api/src/admission: the token of the waiting room, checked before an on-sale event is entered. The
-- HMAC with its encoding and the decoding of the payload are parameters.
pub mod Split
pub mod Verified
use openseat.Base.{
  ℕ, ◌*◌, Bool, true, false, not, ◌&&◌, ◌||◌, Option, none, some, List, [], ◌∷◌, ◌++◌,
  if◌then◌else◌, ◌==◌, leb, is_just, text_eq, find, truthy,
}
use openseat.Store.{Store, Text, Event}
use openseat.Store.Action.{Action, forbidden, ◌>>=◌, ◌>>◌, return, read, require}
use openseat.Access.{find_event}

-- `claims`: a field that is absent is `undefined`. `exp` is in seconds.
pub record Claims : Type 0 where
  pub event_id : Option ℕ
  pub exp : Option ℕ

-- `hmac secret text` is the digest as base64url; `decode` gives nothing where `JSON.parse` throws.
pub record Crypto : Type 0 where
  pub hmac : Text → Text → Text
  pub decode : Text → Option Claims

abbrev pub cons_head : ℕ → List Text → List Text
cons_head c [] = (c ∷ []) ∷ []
cons_head c (w ∷ ws) = (c ∷ w) ∷ ws

-- `split('.')`, for any separator
unfoldable pub split : ℕ → Text → List Text
split sep [] = [] ∷ []
split sep (c ∷ s) = let rest = split sep s in if c == sep then [] ∷ rest else cons_head c rest

abbrev pub in_time : Option ℕ → ℕ → Bool
in_time none now = false
in_time (some exp) now = not (exp == 0) && not (leb (exp * 1000) now)

-- `claims.eventId === eventId`, and `exp` is there, not 0 and later than now
unfoldable pub is_current : Option Claims → ℕ → ℕ → Bool
is_current none event_id now = false
is_current (some claims) event_id now = is_just claims.event_id event_id && in_time claims.exp now

abbrev pub needs_token : Option Event → Bool
needs_token none = false
needs_token (some event) = event.drop_mode

module _ (crypto : Crypto) where
  open crypto use {hmac, decode}

  unfoldable pub verify_parts : Text → List Text → ℕ → ℕ → Bool
  unfolding is_current
  verify_parts secret (header ∷ payload ∷ signature ∷ []) event_id now =
      text_eq (hmac secret (header ++ (b'.' ∷ payload))) signature
      && is_current (decode payload) event_id now
  verify_parts secret _ event_id now = false

  unfoldable pub verify_admission_token : Text → Text → ℕ → ℕ → Bool
  unfolding verify_parts split
  verify_admission_token secret token event_id now =
      verify_parts secret (split b'.' token) event_id now

  abbrev pub is_admitted : Text → Option Text → ℕ → ℕ → Bool
  is_admitted secret none event_id now = false
  is_admitted secret (some token) event_id now =
      truthy (some token) && verify_admission_token secret token event_id now

  -- `canActivate`, for the header `x-admission-token`; a route without an event passes.
  unfoldable pub can_activate : ℕ → Text → Option ℕ → Option Text → Action Bool
  unfolding verify_admission_token
  can_activate now secret none token = return true
  can_activate now secret (some event_id) token = do
    event ← read (find_event event_id)
    require (not (needs_token event) || is_admitted secret token event_id now)
        (forbidden "ADMISSION_REQUIRED")
    return true
