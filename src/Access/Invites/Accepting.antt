-- ===== src/Access/Invites/Accepting.antt =====
-- An invitation is accepted once, within a week, by the user it was made for.
use estoque_saas.Base.{
  ℕ, ◌+◌, ◌≤◌, ◌<◌, ◌≡◌, refl, ap, inl, inr, true, false, none, some, List, [], ◌∷◌, Text, truthy,
  arith, length, ltb, lt→ltb, find, update_where, Bool-cases, if◌then◌else◌,
}
use estoque_saas.Shared.Errors.{validation_error}
use estoque_saas.Shared.Transaction.{
  ok, err, ◌>>=◌, pure, gets, modify, or_throw, throw_if, with_tenant, continue, settle,
}
use estoque_saas.Access.Tokens.{Signing}
use estoque_saas.Access.Tokens.Reading.{read_token-make_token}
use estoque_saas.Access.Invites.{
  Company, User, active, invited, is_invited, is_user, find_user, accepted, invite_ttl_ms,
  create_invite_token, read_invite_token, load_pending_invite, accept_invite,
}

find-accepted :
    (tenant id hash : Text) (us : List User) (u : User)
    → find (is_user tenant id) us ≡ some u
    → find (is_user tenant id) (update_where (is_user tenant id) (accepted hash) us)
      ≡ some (accepted hash u)
find-accepted tenant id hash [] u e = cc
find-accepted tenant id hash (x ∷ xs) u e = ground (arith, find-accepted tenant id hash xs u)

module _ (s : Signing) where
  -- A link reads back as its tenant and its user for a week, and not at all after it.
  read-create_invite_token :
      (tenant id : Text) (issued now : ℕ)
      → truthy (some tenant) ≡ true
      → truthy (some id) ≡ true
      → read_invite_token s (create_invite_token s tenant id issued) now
        ≡ (if ltb (issued + invite_ttl_ms) now then none else some (tenant, id))
  unfolding read_invite_token create_invite_token
  read-create_invite_token tenant id issued now t u =
      rw
        (read_token-make_token s
          (record { tenant = tenant; user = id; exp = issued + invite_ttl_ms }))
        (rw (t, u) (ground arith))

  load_lem :
      (token : Text) (now : ℕ) (db : Company) (tenant id : Text) (u : User)
      → read_invite_token s token now ≡ some (tenant, id)
      → find_user tenant id db ≡ some u
      → load_pending_invite s token now db
        ≡ (if is_invited u.status then (ok (tenant, id, u), db) else (err validation_error, db))
  unfolding load_pending_invite ◌>>=◌ continue gets or_throw pure
  load_lem token now db tenant id u r f =
      rw (r, f) (elim (Bool-cases (is_invited u.status)) [ inl e ↦ rw e refl | inr e ↦ rw e refl ])

  short_lem :
      (hash : Text → Text) (token password : Text) (now : ℕ) (db : Company)
      → ltb (length password) 8 ≡ true
      → accept_invite s hash token password now db ≡ (err validation_error, db)
  unfolding accept_invite ◌>>=◌ continue throw_if
  short_lem hash token password now db l = rw l refl

  unread_lem :
      (hash : Text → Text) (token password : Text) (now : ℕ) (db : Company)
      → read_invite_token s token now ≡ none
      → accept_invite s hash token password now db ≡ (err validation_error, db)
  unfolding accept_invite load_pending_invite ◌>>=◌ continue throw_if or_throw
  unread_lem hash token password now db r = elim (Bool-cases (ltb (length password) 8)) [
    | inl l ↦ rw l refl
    | inr l ↦ rw (l, r) refl
  ]

  -- An acceptance by a link that reads as a user's.
  accept_lem :
      (hash : Text → Text) (token password : Text) (now : ℕ) (db : Company) (tenant id : Text)
      (u : User)
      → read_invite_token s token now ≡ some (tenant, id)
      → find_user tenant id db ≡ some u
      → ltb (length password) 8 ≡ false
      → accept_invite s hash token password now db ≡ (
          if is_invited u.status
          then (
            ok u.email,
            record db {
              users = update_where (is_user tenant id) (accepted (hash password)) db.users;
            },
          )
          else (err validation_error, db))
  unfolding accept_invite ◌>>=◌ continue throw_if with_tenant settle modify pure
  accept_lem hash token password now db tenant id u r f l =
      rw (l, load_lem token now db tenant id u r f)
        (elim (Bool-cases (is_invited u.status)) [ inl e ↦ rw e refl | inr e ↦ rw e refl ])

  -- A user that waits for an acceptance, and a link made for it: within seven days a password of at
  -- least eight characters is accepted, and the user is then active with that password and keeps the
  -- rest of its row. A shorter password, or a link that is older, is refused with VALIDATION_ERROR, and
  -- no table changes.
  pub accept_invite_lem :
      (hash : Text → Text) (tenant id password : Text) (issued now : ℕ) (db : Company) (u : User)
      → truthy (some tenant) ≡ true
      → truthy (some id) ≡ true
      → find_user tenant id db ≡ some u
      → u.status ≡ invited
      → let token = create_invite_token s tenant id issued in
        let run = accept_invite s hash token password now db in
        (8 ≤ length password
          → now ≤ issued + invite_ttl_ms
          → (run.0 ≡ ok u.email)
            × (find_user tenant id run.1
                ≡ some (record u { password_hash = hash password; status = active })))
        × (length password < 8 → run ≡ (err validation_error, db))
        × (issued + invite_ttl_ms < now → run ≡ (err validation_error, db))
  accept_invite_lem hash tenant id password issued now db u t i f w =
      let token = create_invite_token s tenant id issued in
      let reads = read-create_invite_token tenant id issued now t i in
      (
        λ long fresh.
            let early : ltb (issued + invite_ttl_ms) now ≡ false = ground arith in
            let enough : ltb (length password) 8 ≡ false = ground arith in
            let waits : is_invited u.status ≡ true = ap is_invited w in
            let done =
              accept_lem hash token password now db tenant id u (rw early at reads) f enough in
            rw done (rw waits (refl, find-accepted tenant id (hash password) db.users u f)),
        λ short. short_lem hash token password now db (lt→ltb (length password) 8 short),
        λ late.
            let over : ltb (issued + invite_ttl_ms) now ≡ true = lt→ltb _ _ late in
            unread_lem hash token password now db (rw over at reads),
      )

  -- A user that has accepted already.
  settled_lem :
      (hash : Text → Text) (token password : Text) (now : ℕ) (db : Company) (tenant id : Text)
      (u : User)
      → read_invite_token s token now ≡ some (tenant, id)
      → find_user tenant id db ≡ some u
      → is_invited u.status ≡ false
      → accept_invite s hash token password now db ≡ (err validation_error, db)
  settled_lem hash token password now db tenant id u r f w =
      elim (Bool-cases (ltb (length password) 8)) [
        | inl l ↦ short_lem hash token password now db l
        | inr l ↦ rw (accept_lem hash token password now db tenant id u r f l) (rw w refl)
      ]

  -- An acceptance that has succeeded.
  accepted_lem :
      (hash : Text → Text) (token password : Text) (now : ℕ) (db : Company) (tenant id email : Text)
      (u : User)
      → read_invite_token s token now ≡ some (tenant, id)
      → find_user tenant id db ≡ some u
      → (accept_invite s hash token password now db).0 ≡ ok email
      → find_user tenant id (accept_invite s hash token password now db).1
        ≡ some (accepted (hash password) u)
  accepted_lem hash token password now db tenant id email u r f e =
      elim (Bool-cases (ltb (length password) 8)) [
        | inl l ↦ cc (rw (short_lem hash token password now db l) at e)
        | inr l ↦
            let done = accept_lem hash token password now db tenant id u r f l in
            elim (Bool-cases (is_invited u.status)) [
              | inl w ↦ rw done (rw w (find-accepted tenant id (hash password) db.users u f))
              | inr w ↦ cc (rw w at (rw done at e))
            ]
      ]

  -- An invitation is accepted once: after an acceptance that has succeeded, every link of the same
  -- user, the same or another, with any password and at any time, is refused with VALIDATION_ERROR, and
  -- no table changes.
  pub accept_invite_once :
      (hash : Text → Text) (token password : Text) (now : ℕ) (db : Company) (tenant id email : Text)
      (u : User)
      → read_invite_token s token now ≡ some (tenant, id)
      → find_user tenant id db ≡ some u
      → (accept_invite s hash token password now db).0 ≡ ok email
      → (link other : Text) (later : ℕ) → read_invite_token s link later ≡ some (tenant, id)
      → let after = (accept_invite s hash token password now db).1 in
        accept_invite s hash link other later after ≡ (err validation_error, after)
  accept_invite_once hash token password now db tenant id email u r f e link other later r' =
      let after = (accept_invite s hash token password now db).1 in
      settled_lem hash link other later after tenant id (accepted (hash password) u) r'
        (accepted_lem hash token password now db tenant id email u r f e) refl
