-- ===== src/Auth/Google.antt =====
-- Google's sign-in to an account that had a password.
use openseat.Base.{
  ℕ, ◌≡◌, refl, ◌∙◌, ap, inl, inr, Bool, true, none, some, List, if◌then◌else◌, ◌==◌, Bool-cases,
  Option-cases, find, find-update, update, trim, to_lower_case, truthy, arith,
}
use openseat.Store.{Store, Text, User}
use openseat.Store.Action.{ok, err, unauthorized, Ends, Ends-at, Ends-mono, continue-Ends}
use openseat.Auth.Accounts.{
  GooglePayload, has_email, has_google_id, is_verified, text_or_empty, link_google, link_account,
  link_or_create, find_or_create_google_user, google_user,
}
use openseat.Auth.{Libraries, Session, open_session, check_password, login, login_with_google}
use openseat.Auth.Login.{open_session-Ends, login_refused}

-- The email's account has no password any more.
record Linked (email : Text) (s' : Store) : Type 0 where
  user : User
  found : find (has_email email) s'.users ≡ some user
  no_password : user.password_hash ≡ none

linked_row :
    (google_id email : Text) (u : User) (us : List User)
    → find (has_email email) us ≡ some u
    → find (has_email email) (update (λ x. x.id == u.id) (link_google google_id) us)
      ≡ some (link_google google_id u)
linked_row google_id email u us found =
    find-update (has_email email) (λ x. x.id == u.id) (link_google google_id) (λ x. refl) us
    ∙ rw found (hit (u.id == u.id) (ground arith))
  where
    hit :
        (b : Bool)
        → b ≡ true
        → some (if b then link_google google_id u else u) ≡ some (link_google google_id u)
    hit b e = rw e refl

link_account-Linked :
    (google_id email : Text) (u : User) (s : Store)
    → find (has_email email) s.users ≡ some u
    → Ends (link_account google_id u s) (λ _. Linked email)
unfolding link_account
link_account-Linked google_id email u s found =
    elim (Option-cases
      (find (λ x. x.id == u.id) (update (λ x. x.id == u.id) (link_google google_id) s.users))) [
        | inl missing ↦ rw missing tt
        | inr (x, again) ↦ rw again (record {
          user = link_google google_id u;
          found = linked_row google_id email u s.users found;
          no_password = refl;
        })
      ]

google_user-Linked :
    (p : GooglePayload) (u : User) (s : Store)
    → find (has_google_id (text_or_empty p.sub)) s.users ≡ none
    → find (has_email (to_lower_case (trim (text_or_empty p.email)))) s.users ≡ some u
    → Ends (google_user p s) (λ _. Linked (to_lower_case (trim (text_or_empty p.email))))
unfolding google_user find_or_create_google_user link_or_create
google_user-Linked p u s new found =
    rw (find_or_create_google_user, new, found)
      (link_account-Linked (text_or_empty p.sub) _ u s found)

module _ (lib : Libraries) where
  open lib use {verify_id_token, google_client_id}

  login-Linked :
      (now : ℕ) (credential : Text) (p : GooglePayload) (u : User) (s : Store)
      → verify_id_token credential (text_or_empty google_client_id) ≡ some p
      → find (has_google_id (text_or_empty p.sub)) s.users ≡ none
      → find (has_email (to_lower_case (trim (text_or_empty p.email)))) s.users ≡ some u
      → Ends
          (login_with_google lib now credential s)
          (λ _. Linked (to_lower_case (trim (text_or_empty p.email))))
  unfolding login_with_google
  login-Linked now credential p u s verified new found =
      elim (Bool-cases (truthy google_client_id)) [
        | inr off ↦ rw off tt
        | inl configured ↦ elim (Bool-cases (is_verified p)) [
          | inr unverified ↦ rw (configured, verified, unverified) tt
          | inl good ↦
              rw (configured, verified, good)
                (continue-Ends (λ _. Linked (to_lower_case (trim (text_or_empty p.email))))
                  (google_user p s) _ _ (google_user-Linked p u s new found)
                  λ user s₁ linked.
                    Ends-mono _ _ (open_session lib now user s₁)
                      (λ session s₂ kept. record {
                        user = linked.user;
                        found = ap (find (has_email _)) kept.0 ∙ linked.found;
                        no_password = linked.no_password;
                      })
                      (open_session-Ends lib now user s₁))
        ]
      ]

  -- A Google account that no user had yet signs in under the email of an account with a password:
  -- in the store that this sign-in leaves, a sign-in with that email is refused for every
  -- password, at any time, and changes nothing.
  pub login-login_with_google :
      (now now' : ℕ) (credential email password : Text) (p : GooglePayload) (u : User)
      (s s' : Store) (session : Session)
      → verify_id_token credential (text_or_empty google_client_id) ≡ some p
      → find (has_google_id (text_or_empty p.sub)) s.users ≡ none
      → find (has_email (to_lower_case (trim (text_or_empty p.email)))) s.users ≡ some u
      → to_lower_case (trim email) ≡ to_lower_case (trim (text_or_empty p.email))
      → login_with_google lib now credential s ≡ (ok session, s')
      → login lib now' email password s' ≡ (err (unauthorized "Invalid credentials"), s')
  unfolding check_password
  login-login_with_google now now' credential email password p u s s' session verified new found
        same done =
      login_refused lib now' email password s' (
        inr (
          linked.user,
          ap (λ (k : Text). find (has_email k) s'.users) same ∙ linked.found,
          rw linked.no_password refl,
        ))
    where
      linked : Linked (to_lower_case (trim (text_or_empty p.email))) s'
      linked = Ends-at _ done (login-Linked now credential p u s verified new found)
