-- ===== src/DoorScanner.antt =====
-- apps/web/src/lib/use-door-scanner.ts: the scanner at the door, which sends each token to the API and
-- counts the tickets that it admitted. A time of day is the clock's milliseconds.
pub mod Count
use openseat.Base.{
  ℕ, suc, ◌+◌, Bool, true, false, Option, none, some, List, [], ◌∷◌, ◌++◌, codes, take, is_none,
  ◌||◌, ◌&&◌, if◌then◌else◌, ltb, trim, text_eq,
}
use openseat.Store.{Text}
use openseat.Checkin.{CheckinResult, Outcome}

pub data ScanTone : Type 0 where
  ok warn err : ScanTone

pub record FeedEntry : Type 0 where
  pub id : ℕ
  pub time : ℕ
  pub tone : ScanTone
  pub title : Text
  pub detail : Text

pub data ScanResult : Type 0 where
  answered : ScanTone → Text → CheckinResult → ScanResult
  rejected : Text → Text → ScanResult

-- `CheckinResponse` of apps/web/src/lib/api/checkin.ts
pub data CheckinResponse : Type 0 where
  accepted : CheckinResult → CheckinResponse
  refused : Text → CheckinResponse

-- The states and the refs of the hook, without the text field that it shares with the page.
pub record Scanner : Type 0 where
  pub admitted_here : ℕ
  pub scanning : Bool
  pub result : Option ScanResult
  pub feed : List FeedEntry
  pub busy : Bool
  pub last_scan : Option (Text × ℕ)
  pub feed_id : ℕ

abbrev pub feed_limit : ℕ
feed_limit = 25

abbrev pub repeat_scan_window_ms : ℕ
repeat_scan_window_ms = 2500

unfoldable pub push_entry : ℕ → ScanTone → Text → Text → Scanner → Scanner
push_entry now tone title detail d = record d {
  feed_id = d.feed_id + 1;
  feed = take feed_limit (
      record { id = d.feed_id + 1; time = now; tone = tone; title = title; detail = detail }
      ∷ d.feed);
}

-- The same token as in the last scan, within the window.
abbrev pub is_repeat : Text → ℕ → Option (Text × ℕ) → Bool
is_repeat value now none = false
is_repeat value now (some (token, at)) = text_eq token value && ltb now (at + repeat_scan_window_ms)

-- `submitToken` until it awaits the API: the token that it sends, or nothing if it returns early.
unfoldable pub begin_scan : Text → ℕ → Scanner → Option (Text × Scanner)
begin_scan raw now d =
    if text_eq (trim raw) [] || (d.busy || is_repeat (trim raw) now d.last_scan)
    then none
    else some
        (trim raw, record d { last_scan = some (trim raw, now); busy = true; scanning = true })

abbrev pub is_admitted : Outcome → Bool
is_admitted Outcome.checked_in = true
is_admitted Outcome.already_checked_in = false

abbrev pub label_of : CheckinResult → Text
label_of r = elim r.seat [ none ↦ r.ticket_type | some seat ↦ seat ]

-- `·` is code 183.
abbrev pub entry_detail : CheckinResult → Text
entry_detail r =
    label_of r
    ++ (32 ∷ 183 ∷ 32 ∷ (if is_admitted r.outcome then codes "admitted" else codes "already in"))

unfoldable pub show_response : ℕ → CheckinResponse → Scanner → Scanner
unfolding push_entry
show_response now (accepted r) d =
    let tone = if is_admitted r.outcome then ScanTone.ok else warn in
    push_entry now tone r.attendee_name (entry_detail r) (record d {
      admitted_here = d.admitted_here + (if is_admitted r.outcome then 1 else 0);
      result = some (
          answered tone
            (if is_admitted r.outcome then codes "Admitted" else codes "Already checked in") r);
    })
show_response now (refused message) d =
    push_entry now ScanTone.err (codes "Rejected") message
      (record d { result = some (rejected (codes "Rejected") message) })

-- `submitToken` once the API answered; if the call throws, as without a network, nothing runs.
unfoldable pub finish_scan : ℕ → Option CheckinResponse → Scanner → Scanner
unfolding show_response
finish_scan now none d = d
finish_scan now (some response) d = record (show_response now response d) {
  scanning = false;
  busy = false;
}
