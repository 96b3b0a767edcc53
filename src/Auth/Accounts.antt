-- ===== src/Auth/Accounts.antt =====
-- The table of users: accounts with a password or of Google, and the invitations that they claim.
use openseat.Base.{
  ℕ, suc, Bool, false, ◌&&◌, ◌||◌, Option, none, some, [], ◌∷◌, if◌then◌else◌, ◌==◌, is_none, find,
  update, any, text_eq, is_text, truthy, trim, to_lower_case, slice, before,
}
use openseat.Store.{Text, User}
use openseat.Store.Action.{
  Action, Error, unauthorized, unique_violation, record_not_found, ◌>>=◌, ◌>>◌, return, throw, read,
  write, require_some, catch,
}

-- What Google's library answers for a credential: nothing if the check throws.
pub record GooglePayload : Type 0 where
  pub sub : Option Text
  pub email : Option Text
  pub email_verified : Bool
  pub name : Option Text

pub record PublicUser : Type 0 where
  pub id : ℕ
  pub email : Text
  pub display_name : Text
  pub is_demo : Bool

abbrev pub to_public_user : User → PublicUser
to_public_user u = record {
  id = u.id;
  email = u.email;
  display_name = u.display_name;
  is_demo = u.is_demo;
}

abbrev pub has_email : Text → User → Bool
has_email email u = text_eq u.email email

abbrev pub has_google_id : Text → User → Bool
has_google_id google_id u = is_text u.google_id google_id

-- `user.create`, under the unique keys `email` and `google_id`; null is no duplicate.
abbrev pub clashes : Text → Option Text → User → Bool
clashes email none u = has_email email u
clashes email (some google_id) u = has_email email u || has_google_id google_id u

abbrev pub new_user : ℕ → Text → Text → Option Text → Option Text → User
new_user id email display_name password_hash google_id = record {
  id = id;
  email = email;
  display_name = display_name;
  password_hash = password_hash;
  google_id = google_id;
  is_demo = false;
}

unfoldable pub insert_user : Text → Text → Option Text → Option Text → Action User
insert_user email display_name password_hash google_id s =
    if any (clashes email google_id) s.users
    then throw unique_violation s
    else return (new_user s.next_id email display_name password_hash google_id) (record s {
      users = new_user s.next_id email display_name password_hash google_id ∷ s.users;
      next_id = suc s.next_id;
    })

unfoldable pub claim_memberships : ℕ → Text → Action (Unit {0})
claim_memberships user_id email = write λ s. record s {
  team_members =
      update (λ m. text_eq m.email email && is_none m.user_id)
        (λ m. record m { user_id = some user_id }) s.team_members;
}

-- `payload.name?.trim() || email.split('@')[0]`
unfoldable pub shown_name : Option Text → Text → Text
shown_name none email = before b'@' email
shown_name (some name) email = if truthy (some (trim name)) then trim name else before b'@' email

unfoldable pub is_verified : GooglePayload → Bool
is_verified p = truthy p.sub && truthy p.email && p.email_verified

abbrev pub text_or_empty : Option Text → Text
text_or_empty none = []
text_or_empty (some t) = t

abbrev pub link_google : Text → User → User
link_google google_id u = record u { google_id = some google_id; password_hash = none }

unfoldable pub get_profile : ℕ → Action PublicUser
get_profile user_id = do
  found ← read (λ s. find (λ u. u.id == user_id) s.users)
  user ← require_some found (unauthorized "Unauthorized")
  return (to_public_user user)

unfoldable pub create_google_user : Text → Text → Text → Action User
unfolding insert_user claim_memberships
create_google_user google_id email display_name = do
  created ← insert_user email display_name none (some google_id)
  claim_memberships created.id created.email
  return created

-- Another request may have created the account since the look-up.
unfoldable pub existing_or_throw : Text → Text → Error → Action User
existing_or_throw google_id email unique_violation = do
  found ← read (λ s. find (λ u. has_google_id google_id u || has_email email u) s.users)
  require_some found unique_violation
existing_or_throw google_id email e = throw e

unfoldable pub link_account : Text → User → Action User
link_account google_id u = do
  write λ s. record s { users = update (λ x. x.id == u.id) (link_google google_id) s.users }
  found ← read (λ s. find (λ x. x.id == u.id) s.users)
  require_some found record_not_found

unfoldable pub link_or_create : Text → Text → Text → Option User → Action User
unfolding create_google_user existing_or_throw link_account
link_or_create google_id email display_name (some u) = link_account google_id u
link_or_create google_id email display_name none =
    catch (create_google_user google_id email display_name) (existing_or_throw google_id email)

unfoldable pub find_or_create_google_user : Text → Text → Text → Action User
unfolding link_or_create
find_or_create_google_user google_id email display_name s =
    elim (find (has_google_id google_id) s.users) [
      | some u ↦ return u s
      | none ↦ link_or_create google_id email display_name (find (has_email email) s.users) s
    ]

unfoldable pub google_user : GooglePayload → Action User
unfolding find_or_create_google_user shown_name
google_user p =
    let email = to_lower_case (trim (text_or_empty p.email)) in
    find_or_create_google_user (text_or_empty p.sub) email (slice 80 (shown_name p.name email))
