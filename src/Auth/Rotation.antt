-- ===== src/Auth/Rotation.antt =====
-- The rotation and the reuse of refresh tokens.
use openseat.Base.{
  ℕ, ◌≡◌, refl, sym, ap, ◌∙◌, inl, inr, Bool, true, false, ◌&&◌, some, List, ◌∷◌, if◌then◌else◌,
  ◌==◌, ltb, Bool-cases, Option-cases, find, update, any, any-update, any-update_blind,
  is_some-find, find-update, find_holds, ==_iff, subst, arith,
}
use openseat.Store.{Store, User, RefreshToken}
use openseat.Store.Action.{ok, err, unauthorized, Ends, Ends-at, Ends-mono}
use openseat.Store.Returns.{Returns}
use openseat.Auth.{
  Libraries, Session, is_live, revoke_at, insert_token, owner_of, revoke_all, refuse_reuse,
  issue_tokens, open_session, replace_token, rotate_read, rotate_refresh_token,
}

abbrev has_hash : ℕ → RefreshToken → Bool
has_hash h x = x.token_hash == h

-- The old row after a rotation, behind the new one.
record Rotated (now : ℕ) (r : RefreshToken) (user : User) (s : Store) (session : Session)
    (s' : Store) : Type 0 where
  users : s'.users ≡ s.users
  row : find (has_hash r.token_hash) s'.refresh_tokens ≡ some (revoke_at now r)
  owner : session.user.id ≡ user.id

-- A row of another hash in front hides nothing.
behind :
    (new r : RefreshToken) (h : ℕ) (rs : List RefreshToken)
    → any (has_hash new.token_hash) rs ≡ false
    → find (has_hash h) rs ≡ some r
    → find (has_hash h) (new ∷ rs) ≡ some r
unfolding find
behind new r h rs free found = elim (Bool-cases (new.token_hash == h)) [
  | inr other ↦ rw other found
  | inl same ↦
      let e : new.token_hash ≡ h = ground arith in
      let hit : any (has_hash h) rs ≡ true = sym (is_some-find (has_hash h) rs) ∙ rw found refl in
      let miss : any (has_hash h) rs ≡ false = rw e at free in cc (hit, miss)
]

revoked_row :
    (now : ℕ) (r : RefreshToken) (rs : List RefreshToken)
    → find (has_hash r.token_hash) rs ≡ some r
    → find (has_hash r.token_hash) (update (λ x. x.id == r.id) (revoke_at now) rs)
      ≡ some (revoke_at now r)
revoked_row now r rs found =
    find-update (has_hash r.token_hash) (λ x. x.id == r.id) (revoke_at now) (λ x. refl) rs
    ∙ rw found (hit (r.id == r.id) (ground arith))
  where
    hit : (b : Bool) → b ≡ true → some (if b then revoke_at now r else r) ≡ some (revoke_at now r)
    hit b e = rw e refl

module _ (lib : Libraries) where
  open lib use {hash_token}

  replace_token-Ends :
      (now : ℕ) (r : RefreshToken) (user : User) (s : Store)
      → find (has_hash r.token_hash) s.refresh_tokens ≡ some r
      → Ends (replace_token lib now r user s) (Rotated now r user s)
  unfolding replace_token open_session issue_tokens insert_token
  replace_token-Ends now r user s found =
      elim (Bool-cases (any (λ x. x.id == r.id) s.refresh_tokens)) [
        | inr gone ↦ rw gone tt
        | inl there ↦
            rw there
              (elim (Bool-cases (
                any (has_hash (hash_token s.next_id))
                  (update (λ x. x.id == r.id) (revoke_at now) s.refresh_tokens))) [
                    | inl taken ↦ rw taken tt
                    | inr free ↦ rw free (record {
                      users = refl;
                      row =
                          behind _ (revoke_at now r) r.token_hash _ free
                            (revoked_row now r s.refresh_tokens found);
                      owner = refl;
                    })
                  ])
      ]

  rotate_read-Ends :
      (now : ℕ) (r : RefreshToken) (user : User) (s : Store)
      → find (has_hash r.token_hash) s.refresh_tokens ≡ some r
      → Ends (rotate_read lib now r user s) (Rotated now r user s)
  unfolding rotate_read refuse_reuse
  rotate_read-Ends now r user s found = elim (Bool-cases (is_live r)) [
    | inr revoked ↦ rw revoked tt
    | inl live ↦ rw live (elim (Bool-cases (ltb r.expires_at now)) [
      | inl late ↦ rw late tt
      | inr timely ↦ rw timely (replace_token-Ends now r user s found)
    ])
  ]

  -- What a rotation that returned read and left.
  record Rotation (now token : ℕ) (s : Store) (session : Session) (s' : Store) : Type 0 where
    r : RefreshToken
    user : User
    hash : r.token_hash ≡ hash_token token
    owner : owner_of r s ≡ some user
    left : Rotated now r user s session s'

  rotate-Ends :
      (now token : ℕ) (s : Store)
      → Ends (rotate_refresh_token lib now token s) (Rotation now token s)
  unfolding rotate_refresh_token
  rotate-Ends now token s =
      elim (Option-cases (find (has_hash (hash_token token)) s.refresh_tokens)) [
        | inl unknown ↦ rw unknown tt
        | inr (r, found) ↦ rw found (elim (Option-cases (owner_of r s)) [
          | inl orphan ↦ rw orphan tt
          | inr (user, owner) ↦ rw owner (known r user found owner)
        ])
      ]
    where
      known :
          (r : RefreshToken) (user : User)
          → find (has_hash (hash_token token)) s.refresh_tokens ≡ some r
          → owner_of r s ≡ some user
          → Ends (rotate_read lib now r user s) (Rotation now token s)
      known r user found owner =
          let hash : r.token_hash ≡ hash_token token =
            (==_iff _ _).0 (find_holds (has_hash (hash_token token)) s.refresh_tokens r found) in
          Ends-mono (Rotated now r user s) (Rotation now token s) (rotate_read lib now r user s)
            (λ session s' left. record {
              r = r;
              user = user;
              hash = hash;
              owner = owner;
              left = left;
            })
            (rotate_read-Ends now r user s
              (subst (λ h. find (has_hash h) s.refresh_tokens ≡ some r) (sym hash) found))

  -- The row of a rotated token is refused, and every live row of its user is revoked.
  reused :
      (now now' token : ℕ) (r : RefreshToken) (user : User) (s : Store)
      → find (has_hash (hash_token token)) s.refresh_tokens ≡ some (revoke_at now r)
      → owner_of r s ≡ some user
      → ((rotate_refresh_token lib now' token s).0
          ≡ err (unauthorized "Refresh token reuse detected"))
        × (any
              (λ x. x.user_id == user.id && is_live x)
              (rotate_refresh_token lib now' token s).1.refresh_tokens
            ≡ false)
  unfolding rotate_refresh_token rotate_read refuse_reuse revoke_all owner_of
  reused now now' token r user s found owner =
      let same : user.id ≡ r.user_id =
        (==_iff _ _).0 (find_holds (λ u. u.id == r.user_id) s.users user owner) in
      rw (found, owner)
        (
          refl,
          subst
              (λ k.
                any (λ x. x.user_id == k && is_live x)
                  (update (λ x. x.user_id == r.user_id && is_live x) (revoke_at now')
                    s.refresh_tokens)
                ≡ false)
              (sym same)
              (any-update (λ x. x.user_id == r.user_id && is_live x) (revoke_at now')
                (λ x. ground arith) s.refresh_tokens),
        )

  -- When a token was rotated and is presented again, in the store that the rotation left: the call
  -- answers that a reuse was detected, and after it no refresh token of the session's user is live,
  -- the one that the rotation issued included.
  pub rotate-reuse :
      (now now' token : ℕ) (s s' : Store) (session : Session)
      → rotate_refresh_token lib now token s ≡ (ok session, s')
      → ((rotate_refresh_token lib now' token s').0
          ≡ err (unauthorized "Refresh token reuse detected"))
        × (any
              (λ x. x.user_id == session.user.id && is_live x)
              (rotate_refresh_token lib now' token s').1.refresh_tokens
            ≡ false)
  unfolding owner_of
  rotate-reuse now now' token s s' session done =
      subst
        (λ k.
          ((rotate_refresh_token lib now' token s').0
            ≡ err (unauthorized "Refresh token reuse detected"))
          × (any (λ x. x.user_id == k && is_live x)
                (rotate_refresh_token lib now' token s').1.refresh_tokens
              ≡ false))
        (sym left.owner)
        (reused now now' token r user s'
          (subst (λ h. find (has_hash h) s'.refresh_tokens ≡ some (revoke_at now r)) hash left.row)
          (ap (find (λ (u : User). u.id == r.user_id)) left.users ∙ owner))
    where
      p : Rotation now token s session s'
      p = Ends-at _ done (rotate-Ends now token s)

      open p use {r, user, hash, owner, left}

  -- A request that read a row that was live and in time gets new tokens from any store that still
  -- has a row of its id, whatever was written since the read, also where the row has been rotated
  -- or revoked, if the digest of the new token is not taken.
  pub rotate_read-late :
      (now : ℕ) (r : RefreshToken) (user : User) (s : Store)
      → is_live r ≡ true
      → ltb r.expires_at now ≡ false
      → any (λ x. x.id == r.id) s.refresh_tokens ≡ true
      → any (λ x. x.token_hash == hash_token s.next_id) s.refresh_tokens ≡ false
      → Returns (rotate_read lib now r user s) (λ session s'. session.user.id ≡ user.id)
  unfolding rotate_read replace_token open_session issue_tokens insert_token
  rotate_read-late now r user s live timely there free =
      let free' : any (has_hash (hash_token s.next_id))
            (update (λ x. x.id == r.id) (revoke_at now) s.refresh_tokens)
          ≡ false =
        any-update_blind (has_hash (hash_token s.next_id)) (λ x. x.id == r.id) (revoke_at now)
          (λ x. refl) s.refresh_tokens
        ∙ free in
      rw (live, timely, there, free') refl
