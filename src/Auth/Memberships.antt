-- ===== src/Auth/Memberships.antt =====
-- A registration and the open invitations of its email.
use openseat.Base.{
  ℕ, ◌≡◌, refl, sym, ◌∙◌, ap, inl, inr, Bool, true, false, ◌&&◌, none, some, List, [], ◌∷◌, ◌==◌,
  is_none, is_just, is_some, Bool-cases, find-any, update, any, any-update, text_eq, trim,
  to_lower_case, arith,
}
use openseat.Store.{Store, Text, User, TeamMember}
use openseat.Store.Action.{ok, Ends, Ends-at, Ends-mono}
use openseat.Access.{membership_role}
use openseat.Auth.Accounts.{to_public_user, clashes, new_user, insert_user, claim_memberships}
use openseat.Auth.{Libraries, Session, insert_token, issue_tokens, open_session, sign_up, register}
use openseat.Auth.Login.{handled-Ends}

abbrev is_open : Text → TeamMember → Bool
is_open email m = text_eq m.email email && is_none m.user_id

abbrev linked : ℕ → TeamMember → TeamMember
linked user_id m = record m { user_id = some user_id }

-- The open invitations of the email are linked to the session's user, and the others are as before.
record Claimed (email : Text) (s : Store) (session : Session) (s' : Store) : Type 0 where
  members :
      s'.team_members
      ≡ update (is_open (to_lower_case (trim email))) (linked session.user.id) s.team_members

is_member :
    (event_id user_id : ℕ) (email : Text) (ms : List TeamMember)
    → any (λ m. m.event_id == event_id && is_open email m) ms ≡ true
    → any
        (λ m. m.event_id == event_id && is_just m.user_id user_id)
        (update (is_open email) (linked user_id) ms)
      ≡ true
unfolding any update
is_member event_id user_id email [] h = ground (arith, h)
is_member event_id user_id email (m ∷ ms) h =
    elim (Bool-cases (m.event_id == event_id && is_open email m)) [
      | inl here ↦ ground (arith, here)
      | inr other ↦
          let later : any (λ m. m.event_id == event_id && is_open email m) ms ≡ true =
            ground (arith, h, other) in
          ground (arith, is_member event_id user_id email ms later)
    ]

has_role :
    (event_id user_id : ℕ) (s : Store)
    → any (λ m. m.event_id == event_id && is_just m.user_id user_id) s.team_members ≡ true
    → is_some (membership_role event_id user_id s) ≡ true
unfolding membership_role
has_role event_id user_id s h =
    let (m, found, holds) = find-any _ s.team_members h in rw (membership_role, found) refl

module _ (lib : Libraries) where
  open lib use {hash_password, hash_token}

  keeps_members :
      (now : ℕ) (user : User) (s : Store)
      → Ends
          (open_session lib now user s)
          (λ session s'. (s'.team_members ≡ s.team_members) × (session.user ≡ to_public_user user))
  unfolding open_session issue_tokens insert_token
  keeps_members now user s =
      elim (Bool-cases (any (λ r. r.token_hash == hash_token s.next_id) s.refresh_tokens)) [
        | inl taken ↦ rw taken tt
        | inr free ↦ rw free (refl, refl)
      ]

  sign_up-Claimed :
      (now : ℕ) (email password name : Text) (s : Store)
      → Ends (sign_up lib now (to_lower_case (trim email)) password name s) (Claimed email s)
  unfolding sign_up insert_user claim_memberships
  sign_up-Claimed now email password name s =
      elim (Bool-cases (any (clashes (to_lower_case (trim email)) none) s.users)) [
        | inl taken ↦ rw taken tt
        | inr new ↦ rw new (
            Ends-mono _ (Claimed email s) _
              (λ session s' kept. record {
                members =
                    kept.0
                    ∙ ap
                        (λ (k : ℕ).
                          update (is_open (to_lower_case (trim email))) (linked k) s.team_members)
                        (ap (λ (u : openseat.Auth.Accounts.PublicUser). u.id) (sym kept.1));
              })
              (keeps_members now
                (new_user s.next_id (to_lower_case (trim email)) name
                  (some (hash_password password)) none)
                _))
      ]

  -- After a registration that returned, no invitation of its email is open, and on every event that had
  -- one the session's user has a role.
  pub register-membership_role :
      (now : ℕ) (email password name : Text) (s s' : Store) (session : Session)
      → register lib now email password name s ≡ (ok session, s')
      → (any
            (λ m. text_eq m.email (to_lower_case (trim email)) && is_none m.user_id)
            s'.team_members
          ≡ false)
        × ((event_id : ℕ)
            → any
                (λ m.
                  m.event_id == event_id
                  && (text_eq m.email (to_lower_case (trim email)) && is_none m.user_id))
                s.team_members
              ≡ true
            → is_some (membership_role event_id session.user.id s') ≡ true)
  unfolding register
  register-membership_role now email password name s s' session done = (
    ap (any (is_open key)) p.members
        ∙ any-update (is_open key) (linked session.user.id) (λ m. ground arith) s.team_members,
    λ event_id invited. has_role event_id session.user.id s' (
        ap (any (λ m. m.event_id == event_id && is_just m.user_id session.user.id)) p.members
        ∙ is_member event_id session.user.id key s.team_members invited),
  )
    where
      key : Text
      key = to_lower_case (trim email)

      p : Claimed email s session s'
      p = Ends-at _ done (
          handled-Ends lib (sign_up lib now key password (trim name) s) (Claimed email s)
            (sign_up-Claimed now email password (trim name) s))
