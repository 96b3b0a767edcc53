-- ===== src/Examples/Accounts.antt =====
-- Accounts and sessions: a user of the shop registers, signs in, rotates tokens and moves to Google.
use openseat.Base.{
  ◌⊎◌, ℕ, ◌+◌, ◌≡◌, refl, true, false, ◌&&◌, none, some, [], ◌∷◌, codes, find, update, any, text_eq,
  is_text, truthy, trim, trim_start, is_space, lower_code, to_lower_case, ◌==◌, is_none, is_some,
}
use openseat.Store.{Store, User, TeamMember, RefreshToken, EventRole}
use openseat.Store.Action.{ok, err, unauthorized}
use openseat.Store.Returns.{Returns}
use openseat.Access.{membership_role}
use openseat.Auth.Accounts.{
  GooglePayload, PublicUser, insert_user, claim_memberships, has_email, has_google_id, is_verified,
  shown_name, google_user, find_or_create_google_user, link_or_create, link_account,
}
use openseat.Auth.{
  Libraries, Session, is_live, insert_token, issue_tokens, open_session, sign_up, register, login,
  owner_of, replace_token, rotate_read, rotate_refresh_token, login_with_google,
}
use openseat.Auth.Rotation.{rotate-reuse, rotate_read-late}
use openseat.Holds.Exclusive.{succeeds}
use openseat.Auth.Login.{HasPassword, login-HasPassword, login-register}
use openseat.Auth.Memberships.{register-membership_role}
use openseat.Auth.Google.{login-login_with_google}
use openseat.Examples.{shop}

abbrev bea_at_google : GooglePayload
bea_at_google = record {
  sub = some (codes "g1");
  email = some (codes "Bea@x");
  email_verified = true;
  name = none;
}

abbrev lib : Libraries
lib = record {
  hash_password = λ p. b'h' ∷ p;
  verify_password = λ stored p. text_eq stored (b'h' ∷ p);
  hash_token = λ t. t + 1000;
  sign = λ id email. email;
  verify_id_token = λ credential client. some bea_at_google;
  refresh_ttl_ms = 1000;
  google_client_id = some (codes "c");
}

abbrev invitation : TeamMember
invitation = record {
  id = 30;
  event_id = 1;
  email = codes "bea@x";
  user_id = none;
  role = EventRole.staff;
}

abbrev inviting_shop : Store
inviting_shop = record shop { team_members = invitation ∷ [] }

abbrev registered : Store
registered = (register lib 0 (codes " Bea@x") (codes "pw") (codes "Bea") inviting_shop).1

abbrev bea : PublicUser
bea = record { id = 100; email = codes "bea@x"; display_name = codes "Bea"; is_demo = false }

abbrev session_of : ℕ → ℕ → Session
session_of token expires_at = record {
  user = bea;
  tokens = record {
    access_token = codes "bea@x";
    refresh_token = token;
    refresh_expires_at = expires_at;
  };
}

register_test :
    register lib 0 (codes " Bea@x") (codes "pw") (codes "Bea") inviting_shop
    ≡ (ok (session_of 101 1000), registered)
unfolding register sign_up insert_user claim_memberships open_session issue_tokens insert_token any
    text_eq trim trim_start is_space lower_code update
register_test = refl

abbrev rotated : Store
rotated = (rotate_refresh_token lib 10 101 registered).1

rotate_test : rotate_refresh_token lib 10 101 registered ≡ (ok (session_of 102 1010), rotated)
unfolding rotate_refresh_token owner_of rotate_read replace_token register sign_up insert_user
    claim_memberships open_session issue_tokens insert_token any find text_eq trim trim_start
    is_space lower_code update
rotate_test = refl

rotate-reuse_example :
    ((rotate_refresh_token lib 20 101 rotated).0
      ≡ err (unauthorized "Refresh token reuse detected"))
    × (any
          (λ x. x.user_id == 100 && is_live x)
          (rotate_refresh_token lib 20 101 rotated).1.refresh_tokens
        ≡ false)
rotate-reuse_example =
    rotate-reuse lib 10 20 101 registered rotated (session_of 102 1010) rotate_test

abbrev live_row : RefreshToken
live_row = record {
  id = 101;
  user_id = 100;
  token_hash = 1101;
  expires_at = 1000;
  revoked_at = none;
}

abbrev bea_row : User
bea_row = record {
  id = 100;
  email = codes "bea@x";
  display_name = codes "Bea";
  password_hash = some (codes "hpw");
  google_id = none;
  is_demo = false;
}

rotated_free : any (λ x. x.token_hash == rotated.next_id + 1000) rotated.refresh_tokens ≡ false
unfolding rotate_refresh_token owner_of rotate_read replace_token register sign_up insert_user
    claim_memberships open_session issue_tokens insert_token any find text_eq trim trim_start
    is_space lower_code update
rotated_free = refl

row_there : any (λ x. x.id == live_row.id) rotated.refresh_tokens ≡ true
unfolding rotate_refresh_token owner_of rotate_read replace_token register sign_up insert_user
    claim_memberships open_session issue_tokens insert_token any find text_eq trim trim_start
    is_space lower_code update
row_there = refl

rotate_read-late_example :
    Returns (rotate_read lib 20 live_row bea_row rotated) (λ session s'. session.user.id ≡ 100)
rotate_read-late_example =
    rotate_read-late lib 20 live_row bea_row rotated refl refl row_there rotated_free

registered_free :
    any (λ r. r.token_hash == registered.next_id + 1000) registered.refresh_tokens ≡ false
unfolding register sign_up insert_user claim_memberships open_session issue_tokens insert_token any
    text_eq trim trim_start is_space lower_code update
registered_free = refl

-- The account of the email.
login-HasPassword_example :
    (HasPassword lib (codes "bea@x") (codes "pw") registered
      × (succeeds (login lib 5 (codes "bea@x") (codes "pw") registered).0 ≡ true))
    ⊎ ((¬ (HasPassword lib (codes "bea@x") (codes "pw") registered))
        × (login lib 5 (codes "bea@x") (codes "pw") registered
            ≡ (err (unauthorized "Invalid credentials"), registered)))
login-HasPassword_example =
    login-HasPassword lib 5 (codes "bea@x") (codes "pw") registered registered_free

same_email : to_lower_case (trim (codes "BEA@x ")) ≡ to_lower_case (trim (codes " Bea@x"))
unfolding trim trim_start is_space lower_code
same_email = refl

hash_set : truthy (some (codes "hpw")) ≡ true
unfolding truthy
hash_set = refl

hash_verifies : text_eq (codes "hpw") (codes "hpw") ≡ true
unfolding text_eq
hash_verifies = refl

login-register_example :
    Returns
      (login lib 5 (codes "BEA@x ") (codes "pw") registered)
      (λ session' _. session'.user ≡ bea)
login-register_example =
    login-register lib 0 5 (codes " Bea@x") (codes "BEA@x ") (codes "pw") (codes "Bea")
      inviting_shop registered (session_of 101 1000) same_email hash_set hash_verifies
      registered_free register_test

register-membership_role_example :
    (any
        (λ m. text_eq m.email (to_lower_case (trim (codes " Bea@x"))) && is_none m.user_id)
        registered.team_members
      ≡ false)
    × ((event_id : ℕ)
        → any
            (λ m.
              m.event_id == event_id
              && (text_eq m.email (to_lower_case (trim (codes " Bea@x"))) && is_none m.user_id))
            inviting_shop.team_members
          ≡ true
        → is_some (membership_role event_id 100 registered) ≡ true)
register-membership_role_example =
    register-membership_role lib 0 (codes " Bea@x") (codes "pw") (codes "Bea") inviting_shop
      registered (session_of 101 1000) register_test

abbrev linked : Store
linked = (login_with_google lib 7 (codes "credential") registered).1

link_test :
    login_with_google lib 7 (codes "credential") registered ≡ (ok (session_of 102 1007), linked)
unfolding login_with_google is_verified google_user find_or_create_google_user link_or_create
    link_account shown_name truthy is_text register sign_up insert_user claim_memberships
    open_session issue_tokens insert_token any find text_eq trim trim_start is_space lower_code
    update
link_test = refl

no_google_user : find (has_google_id (codes "g1")) registered.users ≡ none
unfolding is_text register sign_up insert_user claim_memberships open_session issue_tokens
    insert_token any find text_eq trim trim_start is_space lower_code update
no_google_user = refl

user_of_email :
    find (has_email (to_lower_case (trim (codes "Bea@x")))) registered.users ≡ some bea_row
unfolding register sign_up insert_user claim_memberships open_session issue_tokens insert_token any
    find text_eq trim trim_start is_space lower_code update
user_of_email = refl

google_email : to_lower_case (trim (codes " Bea@x")) ≡ to_lower_case (trim (codes "Bea@x"))
unfolding trim trim_start is_space lower_code
google_email = refl

login-login_with_google_example :
    login lib 9 (codes " Bea@x") (codes "pw") linked
    ≡ (err (unauthorized "Invalid credentials"), linked)
login-login_with_google_example =
    login-login_with_google lib 7 9 (codes "credential") (codes " Bea@x") (codes "pw") bea_at_google
      bea_row registered linked (session_of 102 1007) refl no_google_user user_of_email google_email
      link_test
