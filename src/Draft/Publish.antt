-- ===== src/Draft/Publish.antt =====
-- `publish` of apps/web/src/lib/use-seat-map-draft.ts: the checks of the editor and the request that it
-- sends, which apps/api/src/seatmaps/seatmaps.service.ts answers.
use mathlib.Core.List.{reverse, reverse-append, reverse-reverse}
use openseat.Base.{
  ℕ, ◌≤◌, ◌≡◌, refl, sym, ap, subst, ◌∙◌, inl, inr, Bool, false, ◌||◌, Bool-cases, some, List, [],
  ◌∷◌, ◌++◌, codes, map, if◌then◌else◌, ◌==◌, any, text_eq, All, is_space, trim_start, trim,
}
use openseat.Store.{Store, Text}
use openseat.Store.Returns.{Returns}
use openseat.Access.{manager}
use openseat.Access.Roles.{HasRole}
use openseat.SeatMaps.Create.{SectionInput, has_repeat, create}
use openseat.SeatMaps.Capacity.{SeatCapacity, create-Returns}
use openseat.Draft.{Section}

pub data Publish : Type 0 where
  refused : Text → Publish
  request : List SectionInput → Publish

abbrev pub to_input : Section → SectionInput
to_input s = record {
  name = trim s.name;
  rows = s.rows;
  cols = s.cols;
  tier_name = trim s.tier_name;
  price_satang = s.price_satang;
  x = some s.x;
  y = some s.y;
}

-- `name === ''` for a name of the list
abbrev pub has_empty : List Text → Bool
has_empty names = any (λ (n : Text). text_eq n []) names

unfoldable pub publish : List Section → Publish
unfolding has_repeat
publish sections =
    let names = map (λ (s : Section). trim s.name) sections in
    let tiers = map (λ (s : Section). trim s.tier_name) sections in
    if has_empty names || has_empty tiers
    then refused (codes "Every section needs a name and a tier")
    else if has_repeat names
    then refused (codes "Section names must be distinct")
    else if has_repeat tiers
    then refused (codes "Tier names must be distinct")
    else request (map to_input sections)

-- `trim` takes a run of spaces away.
trim_start_run : (s : Text) → (run : Text) × (s ≡ run ++ trim_start s)
unfolding trim_start
trim_start_run [] = ([], refl)
trim_start_run (c ∷ s) = elim (Bool-cases (is_space c)) [
  | inr word ↦ rw word ([], refl)
  | inl space ↦
      let (run, parts) = trim_start_run s in rw space (c ∷ run, ap (λ (t : Text). c ∷ t) parts)
]

-- The text begins with no space.
abbrev IsWord : Text → Type 0
IsWord [] = Unit {0}
IsWord (c ∷ s) = is_space c ≡ false

trim_start-IsWord : (s : Text) → IsWord (trim_start s)
unfolding trim_start
trim_start-IsWord [] = tt
trim_start-IsWord (c ∷ s) = elim (Bool-cases (is_space c)) [
  | inl space ↦ rw space (trim_start-IsWord s)
  | inr word ↦ rw word word
]

trim_start-word : (s : Text) → IsWord s → trim_start s ≡ s
unfolding trim_start
trim_start-word [] h = refl
trim_start-word (c ∷ s) h = rw h refl

front-IsWord : (s t : Text) → IsWord (s ++ t) → IsWord s
front-IsWord [] t h = tt
front-IsWord (c ∷ s) t h = h

trim-trim : (s : Text) → trim (trim s) ≡ trim s
unfolding trim
trim-trim s =
    let u : Text = trim_start s in
    let v : Text = trim_start (reverse u) in
    let (run, parts) = trim_start_run (reverse u) in
    let whole : u ≡ reverse v ++ reverse run =
      sym (reverse-reverse u) ∙ ap reverse parts ∙ reverse-append run v in
    let word : IsWord (reverse v) =
      front-IsWord (reverse v) (reverse run) (subst IsWord whole (trim_start-IsWord s)) in
    ap (λ (w : Text). reverse (trim_start (reverse w))) (trim_start-word (reverse v) word)
    ∙ ap (λ (w : Text). reverse (trim_start w)) (reverse-reverse v)
    ∙ ap reverse (trim_start-word v (trim_start-IsWord (reverse u)))

sent_names :
    (sections : List Section)
    → map (λ (c : SectionInput). trim c.name) (map to_input sections)
      ≡ map (λ (s : Section). trim s.name) sections
sent_names [] = refl
sent_names (s ∷ sections) = rw (trim-trim s.name, sent_names sections) refl

sent_tiers :
    (sections : List Section)
    → map (λ (c : SectionInput). trim c.tier_name) (map to_input sections)
      ≡ map (λ (s : Section). trim s.tier_name) sections
sent_tiers [] = refl
sent_tiers (s ∷ sections) = rw (trim-trim s.tier_name, sent_tiers sections) refl

-- What the checks of the editor say of the request that it sends.
abbrev IsSent : Publish → Type 0
IsSent (refused message) = Unit {0}
IsSent (request body) =
    (has_repeat (map (λ (c : SectionInput). trim c.name) body) ≡ false)
    × (has_repeat (map (λ (c : SectionInput). trim c.tier_name) body) ≡ false)

publish-IsSent : (sections : List Section) → IsSent (publish sections)
unfolding publish
publish-IsSent sections =
    let names = map (λ (s : Section). trim s.name) sections in
    let tiers = map (λ (s : Section). trim s.tier_name) sections in
    elim (Bool-cases (has_empty names || has_empty tiers)) [
      | inl blank ↦ rw blank tt
      | inr full ↦ rw full (elim (Bool-cases (has_repeat names)) [
        | inl twice ↦ rw twice tt
        | inr names_once ↦ rw names_once (elim (Bool-cases (has_repeat tiers)) [
          | inl twice ↦ rw twice tt
          | inr once ↦ rw once (rw (sent_names sections) names_once, rw (sent_tiers sections) once)
        ])
      ])
    ]

-- A manager publishes a draft that passes the checks of the editor, for an event that has neither
-- a map nor seats, with sections of at most 26 rows: for the request that the editor sends, whose
-- names it trims again, the method create of the seat map service returns, and if every type with
-- seats had the capacity of its seats, with the ids below the next one, so it is afterwards, new
-- types included. The limits that the decorators of the API set on a request are not part of this.
pub create-publish :
    (event_id user_id : ℕ) (sections : List Section) (body : List SectionInput) (s : Store)
    → publish sections ≡ request body
    → HasRole event_id user_id manager s
    → any (λ m. m.event_id == event_id) s.seat_maps ≡ false
    → any (λ x. x.event_id == event_id) s.seats ≡ false
    → All (λ (c : SectionInput). c.rows ≤ 26) body
    → SeatCapacity s
    → Returns (create event_id user_id body s) (λ _ s'. SeatCapacity s')
create-publish event_id user_id sections body s sent allowed new empty few fits =
    let checked : IsSent (request body) = subst IsSent sent (publish-IsSent sections) in
    create-Returns event_id user_id body s allowed new empty few checked.1 checked.0 fits
