-- ===== src/Auth/Signup.antt =====
-- What a user who registered can log in with.
use go_blueprint.Auth.{User, new_user}
use go_blueprint.Auth.Users.{UserRow, save, find_user_by_email, to_user_row, taken}
use go_blueprint.Prelude.{
  text_eq, find, text_eq_refl, trim_space, to_lower, is_empty, ℕ, ◌+◌, ◌/◌, ◌≡◌, refl, sym, ap, ◌∙◌,
  inl, inr, Bool, true, false, none, some, List, [], ◌∷◌, ◌++◌, arith, ltb, if◌then◌else◌,
  Bool-cases, Option-cases, Text, codes,
}
use go_blueprint.Errors.{
  invalid_password, sentinel, err, user_not_found, is, done, lost, refused, Result-cases, settle,
  reply, within, ok, Fate,
}
use go_blueprint.Auth.Service.{
  login_claims, TokenResponse, login_user, validate_token, login, second, Config, Claims,
  min_password_len, byte_len, register_user, register, RegisterCmd, Call, Crypto,
}

-- What a registration leaves.
record Signed (fold : ℕ → ℕ) (crypto : Crypto) (call : Call) (before after : List UserRow)
    (cmd : RegisterCmd) (id : ℕ) : Type 0 where
  user : User
  hashed : crypto.hash call.salt cmd.password ≡ ok user.password_hash
  normal : user.email ≡ to_lower fold (trim_space cmd.email)
  same_id : user.id ≡ id
  appended : after ≡ before ++ to_user_row user ∷ []
  fresh : taken (to_user_row user) before ≡ false

save_ok :
    (fate : Fate) (rows : List UserRow) (u : User)
    → (save fate rows u).1 ≡ ok tt
    → ((save fate rows u).0 ≡ rows ++ to_user_row u ∷ []) × (taken (to_user_row u) rows ≡ false)
unfolding save
save_ok fate rows u h = elim (Bool-cases (taken (to_user_row u) rows)) [
  | inl dup ↦ cc (rw (dup, save) at h)
  | inr new ↦ rw (new, save) (settled fate (rw (new, save) at h), refl)
]
  where
    settled :
        (fate : Fate)
        → within (codes "postgres.UserRepository.Save") (reply fate) ≡ ok tt
        → settle fate rows (rows ++ to_user_row u ∷ []) ≡ rows ++ to_user_row u ∷ []
    settled done h = refl
    settled (refused e) h = cc
    settled (lost e) h = cc

module _ (fold : ℕ → ℕ) (crypto : Crypto) (call : Call) (users : List UserRow)
    (cmd : RegisterCmd) where
  new_user_ok :
      (hash : Text) (u : User)
      → new_user fold call.user_id call.now cmd.email cmd.name hash ≡ ok u
      → (u.password_hash ≡ hash) × (u.email ≡ to_lower fold (trim_space cmd.email))
  unfolding new_user
  new_user_ok hash u h = elim (Bool-cases (is_empty (trim_space cmd.email))) [
    | inl unmailed ↦ cc (rw (unmailed, new_user) at h)
    | inr mailed ↦ elim (Bool-cases (is_empty (trim_space cmd.name))) [
      | inl unnamed ↦ cc (rw (mailed, unnamed, new_user) at h)
      | inr named ↦ (cc (rw (mailed, named, new_user) at h), cc (rw (mailed, named, new_user) at h))
    ]
  ]

  register_user_ok :
      (id : ℕ)
      → (register_user fold crypto call users cmd).1 ≡ ok id
      → Signed fold crypto call users (register_user fold crypto call users cmd).0 cmd id
  unfolding register_user
  register_user_ok id h = elim (Result-cases (crypto.hash call.salt cmd.password)) [
    | inr (e, unhashed) ↦ cc (rw (unhashed, register_user) at h)
    | inl (hash, hashed) ↦
        elim (Result-cases (new_user fold call.user_id call.now cmd.email cmd.name hash)) [
          | inr (e, invalid) ↦ cc (rw (hashed, invalid, register_user) at h)
          | inl (u, valid) ↦ elim (Result-cases (save call.save_fate users u).1) [
            | inr (e, unsaved) ↦ cc (rw (hashed, valid, unsaved, register_user) at h)
            | inl (done_, saved) ↦
                let (appended, fresh) = save_ok call.save_fate users u saved in
                let (hash_is, normal) = new_user_ok hash u valid in
                rw (hashed, valid, saved, register_user)
                  (record {
                    user = u;
                    hashed = hashed ∙ ap ok (sym hash_is);
                    normal = normal;
                    same_id = cc (rw (hashed, valid, saved, register_user) at h);
                    appended = appended;
                    fresh = fresh;
                  })
          ]
        ]
  ]

  register_ok :
      (id : ℕ)
      → (register fold crypto call users cmd).1 ≡ ok id
      → Signed fold crypto call users (register fold crypto call users cmd).0 cmd id
  unfolding register
  register_ok id h = elim (Bool-cases (ltb (byte_len cmd.password) min_password_len)) [
    | inl short ↦ cc (rw (short, register) at h)
    | inr long ↦ elim (Result-cases (find_user_by_email call.find_failure users cmd.email)) [
      | inl (u, found) ↦ cc (rw (long, found, register) at h)
      | inr (e, missing) ↦ elim (Bool-cases (is e user_not_found)) [
        | inl free ↦
            rw (long, missing, free, register)
              (register_user_ok id (rw (long, missing, free, register) at h))
        | inr failed ↦ cc (rw (long, missing, failed, register) at h)
      ]
    ]
  ]

  -- With no failure of the query, a registration found no row with the e-mail as it was written.
  register_unseen :
      (id : ℕ)
      → call.find_failure ≡ none
      → (register fold crypto call users cmd).1 ≡ ok id
      → find (λ r. text_eq r.email cmd.email) users ≡ none
  unfolding register find_user_by_email
  register_unseen id connected h =
      elim (Option-cases (find (λ r. text_eq r.email cmd.email) users)) [
        | inl absent ↦ absent
        | inr (r, found) ↦ elim (Bool-cases (ltb (byte_len cmd.password) min_password_len)) [
          | inl short ↦ cc (rw (short, register) at h)
          | inr long ↦ cc (rw (long, connected, found, register, find_user_by_email) at h)
        ]
      ]

-- The row that a fresh one is found as.
find_appended :
    (p : UserRow → Bool) (rows : List UserRow) (r : UserRow)
    → find p rows ≡ none
    → find p (rows ++ r ∷ []) ≡ (if p r then some r else none)
find_appended p [] r h = elim (Bool-cases (p r)) [ inl hit ↦ rw hit refl | inr miss ↦ rw miss refl ]
find_appended p (s ∷ rows) r h = ground (arith, find_appended p rows r)

unseen :
    (r : UserRow) (rows : List UserRow)
    → taken r rows ≡ false
    → find (λ s. text_eq s.email r.email) rows ≡ none
unseen r [] h = refl
unseen r (s ∷ rows) h = ground (arith, unseen r rows)

-- A new user is found by the e-mail of the row.
found_own :
    {fold : ℕ → ℕ} (crypto : Crypto) (call : Call) (users : List UserRow) {after : List UserRow}
    {cmd : RegisterCmd} {id : ℕ}
    → (signed : Signed fold crypto call users after cmd id)
    → find (λ r. text_eq r.email signed.user.email) after ≡ some (to_user_row signed.user)
found_own crypto call users signed =
    ap (find (λ r. text_eq r.email signed.user.email)) signed.appended
    ∙ find_appended (λ r. text_eq r.email signed.user.email) users (to_user_row signed.user)
        (unseen (to_user_row signed.user) users signed.fresh)
    ∙ rw (text_eq_refl signed.user.email) refl

-- What the JWT library promises: a token that it signed is valid until it expires, with its claims.
abbrev pub JwtRoundTrips : Crypto → Text → Type 0
JwtRoundTrips crypto secret =
    (claims : Claims)
    → (token : Text) × (crypto.sign secret claims ≡ ok token)
      × ((now : ℕ)
          → ltb (now / second) claims.exp ≡ true
          → crypto.parse secret now token ≡ some claims)

module _ (fold : ℕ → ℕ) (uuid_text : ℕ → Text) (crypto : Crypto) (config : Config)
    (call later : Call) (users : List UserRow) (cmd : RegisterCmd) (id : ℕ) where
  abbrev after : List UserRow
  after = (register fold crypto call users cmd).0

  -- If bcrypt accepts a password against its hash and the JWT library reads what it signed: after Register
  -- succeeded, Login with the same password and the e-mail in its normal form succeeds, with a token that
  -- ValidateToken accepts until it expires, for that user.
  pub login-after-register :
      ((salt : ℕ) (password hash : Text)
        → crypto.hash salt password ≡ ok hash
        → crypto.compare hash password ≡ true)
      → JwtRoundTrips crypto config.jwt_secret
      → (register fold crypto call users cmd).1 ≡ ok id
      → later.find_failure ≡ none
      → (now : ℕ) → ltb (now / second) ((later.now + config.jwt_expiry) / second) ≡ true
      → (t : TokenResponse) × ((login uuid_text crypto config later after
            (record { email = to_lower fold (trim_space cmd.email); password = cmd.password })).1
          ≡ ok t)
        × (t.expires_at ≡ later.now + config.jwt_expiry)
        × ((claims : Claims) × (validate_token crypto config now t.token ≡ ok claims)
            × (claims.sub ≡ uuid_text id))
  unfolding login validate_token login_user find_user_by_email
  login-after-register bcrypt jwt registered connected now alive =
      let signed = register_ok fold crypto call users cmd id registered in
      let (token, issued, read) = jwt (login_claims uuid_text crypto config later signed.user) in
      let found : find (λ r. text_eq r.email (to_lower fold (trim_space cmd.email))) after
          ≡ some (to_user_row signed.user) =
        ap (λ email. find (λ r. text_eq r.email email) after) (sym signed.normal)
        ∙ found_own crypto call users signed in
      let t : TokenResponse = record {
        token = token;
        expires_at = later.now + config.jwt_expiry;
      } in
      (
        t,
        rw
            (
              connected,
              found,
              bcrypt call.salt cmd.password signed.user.password_hash signed.hashed,
              issued,
              login,
              login_user,
              find_user_by_email,
            )
            refl,
        refl,
        (
          login_claims uuid_text crypto config later signed.user,
          rw (read now alive, validate_token) refl,
          ap uuid_text signed.same_id,
        ),
      )

  -- After Register succeeded with an e-mail that is not in its normal form, Login with that very e-mail is
  -- refused, as a wrong password, though no query fails.
  pub raw_login_refused :
      call.find_failure ≡ none
      → (register fold crypto call users cmd).1 ≡ ok id
      → later.find_failure ≡ none
      → text_eq (to_lower fold (trim_space cmd.email)) cmd.email ≡ false
      → (login uuid_text crypto config later after
          (record { email = cmd.email; password = cmd.password })).1
        ≡ err (sentinel invalid_password)
  unfolding login find_user_by_email is
  raw_login_refused connected registered still_connected raw =
      let signed = register_ok fold crypto call users cmd id registered in
      let missed : find (λ r. text_eq r.email cmd.email) after ≡ none =
        ap (find (λ r. text_eq r.email cmd.email)) signed.appended
        ∙ find_appended (λ r. text_eq r.email cmd.email) users (to_user_row signed.user)
            (register_unseen fold crypto call users cmd id connected registered)
        ∙ rw (ap (λ email. text_eq email cmd.email) signed.normal ∙ raw) refl in
      rw (still_connected, missed, login, find_user_by_email) refl
