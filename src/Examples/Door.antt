-- ===== src/Examples/Door.antt =====
-- A scanner at the door of the shop's event: a scan, its repetition, a later one, and a lost answer.
use openseat.Base.{
  ℕ, ◌+◌, ◌≤◌, ◌≡◌, refl, none, some, List, [], ◌∷◌, codes, find, any, count, update, take, length,
  true, false, text_eq, trim, trim_start, is_space, arith,
}
use openseat.Store.{Text}
use openseat.Store.Action.{Error}
use openseat.Access.{require_event_role, resolve_role, find_event, role_in, membership_role}
use openseat.Checkin.{claim_ticket, scanned, admit, check_in}
use openseat.Checkin.Counted.{HasIds, admitted_in}
use openseat.DoorScanner.{Scanner, begin_scan, finish_scan, show_response, push_entry, feed_limit}
use openseat.DoorScanner.Count.{Visit, scan, scan_all, scan_all-count}
use openseat.Examples.Reports.{guest_shop}

abbrev idle : Scanner
idle = record {
  admitted_here = 0;
  scanning = false;
  result = none;
  feed = [];
  busy = false;
  last_scan = none;
  feed_id = 0;
}

abbrev visit_at : ℕ → Visit
visit_at now = record { raw = codes " q"; now = now; later = now + 100 }

abbrev visits : List Visit
visits = visit_at 1000 ∷ visit_at 2000 ∷ visit_at 9000 ∷ []

abbrev no_text : Error → Text
no_text e = []

abbrev only_token : Text → ℕ
only_token t = 60

guest_ids : HasIds guest_shop
unfolding count
guest_ids k = ground arith

scan_all-count_example :
    ((scan_all no_text only_token 1 9 visits (idle, guest_shop)).0.admitted_here
        + admitted_in guest_shop
      ≡ 0 + admitted_in (scan_all no_text only_token 1 9 visits (idle, guest_shop)).1)
    × (length (scan_all no_text only_token 1 9 visits (idle, guest_shop)).0.feed ≤ feed_limit)
scan_all-count_example =
    scan_all-count no_text only_token 1 9 visits idle guest_shop guest_ids (omega arith)

-- The repeated scan is not sent; the later one finds the ticket checked in.
feed_test : length (scan_all no_text only_token 1 9 visits (idle, guest_shop)).0.feed ≡ 2
unfolding scan_all scan begin_scan finish_scan show_response push_entry take check_in scanned admit
    claim_ticket require_event_role resolve_role find_event role_in membership_role find any update
    text_eq trim trim_start is_space
feed_test = refl

abbrev waiting : Scanner
waiting = record idle { scanning = true; busy = true; last_scan = some (codes "q", 1000) }

begin_test : begin_scan (codes " q") 1000 idle ≡ some (codes "q", waiting)
unfolding begin_scan text_eq trim trim_start is_space
begin_test = refl

-- A call that throws leaves the scanner busy: no later token is sent.
lost_scan : begin_scan (codes "z") 99000 (finish_scan 1100 none waiting) ≡ none
unfolding begin_scan finish_scan text_eq trim trim_start is_space
lost_scan = refl
