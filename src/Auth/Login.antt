-- ===== src/Auth/Login.antt =====
-- Who can sign in with a password.
use openseat.Base.{
  ℕ, ◌≡◌, refl, sym, ap, ◌∙◌, ◌⊎◌, inl, inr, ◌≢◌, true, false, Option, none, some, [], ◌∷◌,
  Option-cases, subst, ◌==◌, Bool-cases, find, any, text_eq_refl, trim, to_lower_case, truthy,
  arith,
}
use openseat.Store.{Store, Text, User}
use openseat.Store.Action.{
  Error, Result, ok, err, unauthorized, unique_violation, Ends, Ends-at, Ends-mono, handle,
}
use openseat.Store.Returns.{Returns}
use openseat.Holds.Exclusive.{succeeds}
use openseat.Auth.Accounts.{
  to_public_user, has_email, clashes, new_user, insert_user, claim_memberships,
}
use openseat.Auth.{
  Libraries, Session, insert_token, invalid_credentials, registered_error, issue_tokens,
  open_session, sign_up, register, check_password, login,
}

module _ (lib : Libraries) where
  open lib use {hash_password, verify_password, hash_token}

  -- An account of an email.
  abbrev account : Text → Store → Option User
  account email s = find (has_email (to_lower_case (trim email))) s.users

  -- The two refusals of a sign-in.
  pub login_refused :
      (now : ℕ) (email password : Text) (s : Store)
      → (find (has_email (to_lower_case (trim email))) s.users ≡ none)
        ⊎ ((u : User) × (find (has_email (to_lower_case (trim email))) s.users ≡ some u)
            × (check_password lib u.password_hash password ≡ false))
      → login lib now email password s ≡ (err (unauthorized "Invalid credentials"), s)
  unfolding login invalid_credentials
  login_refused now email password s (inl unknown) = rw unknown refl
  login_refused now email password s (inr (u, found, wrong)) = rw (found, wrong) refl

  -- The email has an account, which has a password that is not empty, and the password verifies it.
  pub record HasPassword (email password : Text) (s : Store) : Type 0 where
    pub user : User
    pub hash : Text
    pub found : find (has_email (to_lower_case (trim email))) s.users ≡ some user
    pub stored : user.password_hash ≡ some hash
    pub filled : hash ≢ []
    pub verified : verify_password hash password ≡ true

  filled_hash : (hash : Text) → hash ≢ [] → truthy (some hash) ≡ true
  unfolding truthy
  filled_hash [] h = absurd (h refl)
  filled_hash (c ∷ hash) h = refl

  filled_absurd : (c : ℕ) (hash : Text) → (c ∷ hash) ≢ []
  filled_absurd c hash e = ground (arith, e)

  checked_stored :
      (stored : Option Text) (password : Text)
      → check_password lib stored password ≡ true
      → (hash : Text) × (stored ≡ some hash) × (hash ≢ []) × (verify_password hash password ≡ true)
  unfolding check_password truthy
  checked_stored none password h = absurd (ground (arith, h))
  checked_stored (some []) password h = absurd (ground (arith, h))
  checked_stored (some (c ∷ hash)) password h = (c ∷ hash, refl, λ e. filled_absurd c hash e, h)

  hash_in : Option User → Option Text
  hash_in none = none
  hash_in (some u) = u.password_hash

  accepted_check :
      (email password : Text) (s : Store) (p : HasPassword email password s)
      → check_password lib p.user.password_hash password ≡ true
  unfolding check_password
  accepted_check email password s p = rw (p.stored, filled_hash p.hash p.filled, p.verified) refl

  -- A sign-in with a password, where the digest of the new refresh token is not taken: either an
  -- account has the email, with a password that is not empty and that the one given verifies, and
  -- the call returns; or there is no such account, also where it has no password, as one of
  -- Google, and the call throws one and the same error and changes nothing.
  pub login-HasPassword :
      (now : ℕ) (email password : Text) (s : Store)
      → any (λ r. r.token_hash == hash_token s.next_id) s.refresh_tokens ≡ false
      → (HasPassword email password s × (succeeds (login lib now email password s).0 ≡ true))
        ⊎ ((¬ (HasPassword email password s))
            × (login lib now email password s ≡ (err (unauthorized "Invalid credentials"), s)))
  unfolding login invalid_credentials open_session issue_tokens insert_token hash_in
  login-HasPassword now email password s free =
      elim (Option-cases (find (has_email (to_lower_case (trim email))) s.users)) [
        | inl unknown ↦ inr (
          λ p. ground (arith, unknown, p.found),
          login_refused now email password s (inl unknown),
        )
        | inr (u, found) ↦ elim (Bool-cases (check_password lib u.password_hash password)) [
          | inr wrong ↦ inr (
            λ p.
                let same : u.password_hash ≡ p.user.password_hash =
                  ap hash_in (sym found ∙ p.found) in
                let right : check_password lib u.password_hash password ≡ true =
                  subst (λ o. check_password lib o password ≡ true) (sym same)
                    (accepted_check email password s p) in
                ground (arith, wrong, right),
            login_refused now email password s (inr (u, found, wrong)),
          )
          | inl right ↦
              let (hash, stored, filled, verified) =
                checked_stored u.password_hash password right in
              inl (
                record {
                  user = u;
                  hash = hash;
                  found = found;
                  stored = stored;
                  filled = filled;
                  verified = verified;
                },
                rw (found, right, free) refl,
              )
        ]
      ]

  -- What a registration leaves: the account in front of its email.
  record Registered (email password : Text) (session : Session) (s' : Store) : Type 0 where
    user : User
    found : account email s' ≡ some user
    password_set : user.password_hash ≡ some (hash_password password)
    shown : session.user ≡ to_public_user user

  pub open_session-Ends :
      (now : ℕ) (user : User) (s : Store)
      → Ends
          (open_session lib now user s)
          (λ session s'. (s'.users ≡ s.users) × (session.user ≡ to_public_user user))
  unfolding open_session issue_tokens insert_token
  open_session-Ends now user s =
      elim (Bool-cases (any (λ r. r.token_hash == hash_token s.next_id) s.refresh_tokens)) [
        | inl taken ↦ rw taken tt
        | inr free ↦ rw free (refl, refl)
      ]

  sign_up-Ends :
      (now : ℕ) (email password name : Text) (s : Store)
      → Ends
          (sign_up lib now (to_lower_case (trim email)) password name s)
          (Registered email password)
  unfolding sign_up insert_user claim_memberships find
  sign_up-Ends now email password name s =
      elim (Bool-cases (any (clashes (to_lower_case (trim email)) none) s.users)) [
        | inl taken ↦ rw taken tt
        | inr new ↦ rw new (
            Ends-mono _ (Registered email password) _
              (λ session s' kept. record {
                user = user;
                found = ap (find (has_email key)) kept.0 ∙ rw (text_eq_refl key) refl;
                password_set = refl;
                shown = kept.1;
              })
              (open_session-Ends now user _))
      ]
    where
      key : Text
      key = to_lower_case (trim email)

      user : User
      user = new_user s.next_id key name (some (hash_password password)) none

  refused-Ends :
      (e : Error) (s : Store) (Q : Session → Store → Type 0) → Ends (registered_error e s) Q
  unfolding registered_error
  refused-Ends unique_violation s Q = tt
  refused-Ends _ s Q = tt

  pub handled-Ends :
      (r : Result Session × Store) (Q : Session → Store → Type 0)
      → Ends r Q
      → Ends (handle r registered_error) Q
  handled-Ends (ok a, s) Q h = h
  handled-Ends (err e, s) Q h = refused-Ends e s Q

  register-Ends :
      (now : ℕ) (email password name : Text) (s : Store)
      → Ends (register lib now email password name s) (Registered email password)
  unfolding register
  register-Ends now email password name s =
      handled-Ends (sign_up lib now (to_lower_case (trim email)) password (trim name) s)
        (Registered email password) (sign_up-Ends now email password (trim name) s)

  -- After a registration that returned, a sign-in with the same password and an email that differs at
  -- most in case and outer white space returns a session of the same user, where the password's hash is
  -- not empty and verifies it, and the digest of the new refresh token is not taken.
  pub login-register :
      (now now' : ℕ) (email email' password name : Text) (s s' : Store) (session : Session)
      → to_lower_case (trim email') ≡ to_lower_case (trim email)
      → truthy (some (hash_password password)) ≡ true
      → verify_password (hash_password password) password ≡ true
      → any (λ r. r.token_hash == hash_token s'.next_id) s'.refresh_tokens ≡ false
      → register lib now email password name s ≡ (ok session, s')
      → Returns (login lib now' email' password s') (λ session' _. session'.user ≡ session.user)
  unfolding login check_password open_session issue_tokens insert_token
  login-register now now' email email' password name s s' session same hashed verified free done =
      rw (same, p.found, p.password_set, hashed, verified, free) (sym p.shown)
    where
      p : Registered email password session s'
      p = Ends-at _ done (register-Ends now email password name s)
