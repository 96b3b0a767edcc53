-- ===== src/Auth.antt =====
-- apps/api/src/auth/auth.service.ts: accounts, sessions and the rotation of refresh tokens. The
-- password hash, the token digest, the signature of access tokens and Google's check are parameters.
pub mod Accounts
pub mod Rotation
pub mod Login
pub mod Memberships
pub mod Google
use openseat.Base.{
  ℕ, suc, ◌+◌, Bool, true, false, not, ◌&&◌, ◌||◌, Option, none, some, List, [], ◌∷◌, if◌then◌else◌,
  ◌==◌, ltb, leb, is_none, is_just, is_some, find, update, any, text_eq, is_text, truthy, trim,
  to_lower_case, slice, before, codes,
}
use openseat.Store.{Store, Text, User, RefreshToken}
use openseat.Store.Action.{
  Action, Error, unauthorized, service_unavailable, conflict, unique_violation, record_not_found,
  ◌>>=◌, ◌>>◌, return, throw, read, write, require, require_some, catch,
}
use openseat.Auth.Accounts.{
  GooglePayload, PublicUser, to_public_user, has_email, has_google_id, clashes, new_user,
  insert_user, claim_memberships, shown_name, is_verified, text_or_empty, link_google, get_profile,
  create_google_user, existing_or_throw, link_account, link_or_create, find_or_create_google_user,
  google_user,
}

-- The libraries, and the configuration.
pub record Libraries : Type 0 where
  pub hash_password : Text → Text
  pub verify_password : Text → Text → Bool
  pub hash_token : ℕ → ℕ
  pub sign : ℕ → Text → Text
  pub verify_id_token : Text → Text → Option GooglePayload
  pub refresh_ttl_ms : ℕ
  pub google_client_id : Option Text

pub record AuthTokens : Type 0 where
  pub access_token : Text
  pub refresh_token : ℕ
  pub refresh_expires_at : ℕ

pub record Session : Type 0 where
  pub user : PublicUser
  pub tokens : AuthTokens

-- `refreshToken.create`, under the unique key `token_hash`
unfoldable pub insert_token : ℕ → ℕ → ℕ → Action (Unit {0})
insert_token user_id token_hash expires_at s =
    if any (λ r. r.token_hash == token_hash) s.refresh_tokens
    then throw unique_violation s
    else return tt (record s {
      refresh_tokens =
          record {
            id = s.next_id;
            user_id = user_id;
            token_hash = token_hash;
            expires_at = expires_at;
            revoked_at = none;
          }
          ∷ s.refresh_tokens;
      next_id = suc s.next_id;
    })

abbrev pub is_live : RefreshToken → Bool
is_live r = is_none r.revoked_at

abbrev pub revoke_at : ℕ → RefreshToken → RefreshToken
revoke_at now r = record r { revoked_at = some now }

unfoldable pub invalid_credentials : Error
invalid_credentials = unauthorized "Invalid credentials"

unfoldable pub registered_error : Error → Action Session
registered_error unique_violation = throw (conflict "An account with this email already exists")
registered_error e = throw e

-- The owner of a token, which the foreign key provides.
unfoldable pub owner_of : RefreshToken → Store → Option User
owner_of r s = find (λ u. u.id == r.user_id) s.users

unfoldable pub revoke_all : ℕ → ℕ → Action (Unit {0})
revoke_all now user_id = write λ s. record s {
  refresh_tokens = update (λ r. r.user_id == user_id && is_live r) (revoke_at now) s.refresh_tokens;
}

unfoldable pub refuse_reuse : ℕ → RefreshToken → Action Session
unfolding revoke_all
refuse_reuse now r = do
  revoke_all now r.user_id
  throw (unauthorized "Refresh token reuse detected")

module _ (lib : Libraries) where
  open lib use {
    hash_password, verify_password, hash_token, sign, verify_id_token, refresh_ttl_ms,
    google_client_id,
  }

  unfoldable pub issue_tokens : ℕ → User → Action AuthTokens
  unfolding insert_token
  issue_tokens now user = do
    refresh_token ← read (λ s. s.next_id)
    insert_token user.id (hash_token refresh_token) (now + refresh_ttl_ms)
    return (record {
      access_token = sign user.id user.email;
      refresh_token = refresh_token;
      refresh_expires_at = now + refresh_ttl_ms;
    })

  unfoldable pub open_session : ℕ → User → Action Session
  unfolding issue_tokens
  open_session now user = do
    tokens ← issue_tokens now user
    return (record { user = to_public_user user; tokens = tokens })

  unfoldable pub sign_up : ℕ → Text → Text → Text → Action Session
  unfolding insert_user claim_memberships open_session
  sign_up now email password display_name = do
    user ← insert_user email display_name (some (hash_password password)) none
    claim_memberships user.id user.email
    open_session now user

  unfoldable pub register : ℕ → Text → Text → Text → Action Session
  unfolding sign_up registered_error
  register now email password display_name =
      catch (sign_up now (to_lower_case (trim email)) password (trim display_name)) registered_error

  unfoldable pub check_password : Option Text → Text → Bool
  check_password none password = false
  check_password (some stored) password = truthy (some stored) && verify_password stored password

  unfoldable pub login : ℕ → Text → Text → Action Session
  unfolding check_password invalid_credentials open_session
  login now email password = do
    found ← read (λ s. find (has_email (to_lower_case (trim email))) s.users)
    user ← require_some found invalid_credentials
    require (check_password user.password_hash password) invalid_credentials
    open_session now user

  -- The writes of a rotation, for the row that it read.
  unfoldable pub replace_token : ℕ → RefreshToken → User → Action Session
  unfolding open_session
  replace_token now r user = do
    there ← read (λ s. any (λ x. x.id == r.id) s.refresh_tokens)
    require there record_not_found
    write λ s. record s {
      refresh_tokens = update (λ x. x.id == r.id) (revoke_at now) s.refresh_tokens;
    }
    open_session now user

  unfoldable pub rotate_read : ℕ → RefreshToken → User → Action Session
  unfolding replace_token refuse_reuse
  rotate_read now r user =
      if is_live r
      then if ltb r.expires_at now
        then throw (unauthorized "Refresh token expired")
        else replace_token now r user
      else refuse_reuse now r

  unfoldable pub rotate_refresh_token : ℕ → ℕ → Action Session
  unfolding owner_of rotate_read
  rotate_refresh_token now token = do
    found ← read (λ s. find (λ r. r.token_hash == hash_token token) s.refresh_tokens)
    r ← require_some found (unauthorized "Invalid refresh token")
    owner ← read (owner_of r)
    user ← require_some owner record_not_found
    rotate_read now r user

  unfoldable pub revoke_refresh_token : ℕ → ℕ → Action (Unit {0})
  revoke_refresh_token now token = write λ s. record s {
    refresh_tokens =
        update (λ r. r.token_hash == hash_token token && is_live r) (revoke_at now)
          s.refresh_tokens;
  }

  unfoldable pub login_with_google : ℕ → Text → Action Session
  unfolding is_verified google_user open_session
  login_with_google now credential = do
    require (truthy google_client_id) (service_unavailable "Google sign-in is not configured")
    payload ←
        require_some (verify_id_token credential (text_or_empty google_client_id))
          (unauthorized "Invalid Google credential")
    require (is_verified payload) (unauthorized "Google account could not be verified")
    user ← google_user payload
    open_session now user
