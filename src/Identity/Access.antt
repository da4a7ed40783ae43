-- ===== src/Identity/Access.antt =====
-- Who gets in: what a login that succeeds has checked and written.
use project_progress_registe.Base.{
  ◌+◌, ◌≡◌, ◌≤◌, ◌⊎◌, inl, inr, refl, sym, ap, ◌∙◌, Bool, true, false, Option, none, some, [], ◌∷◌,
  ◌++◌, arith, find, any, delete,
}
use mathlib.Core.Path.{subst}
use project_progress_registe.Text.{Text, text_eq}
use project_progress_registe.Text.Laws.{text_eq_iff}
use project_progress_registe.Platform.{Platform}
use project_progress_registe.Schema.{Uuid, Instant, AuditContext, UserRow, ThrottleRow, Tables}
use project_progress_registe.Db.{ok, World, run}
use project_progress_registe.Db.Runs.{Runs, branch-Runs, now-Runs->>=}
use project_progress_registe.Db.Steps.{
  Yields, Runs-Yields, pure-Yields, raise-Yields, branch-Yields, bind-Yields, then-Yields,
  query-Yields, now->>=, attempt->>, random_bytes->>=,
}
use project_progress_registe.Identity.Types.{LoginInput, LoginResult, to_user, normalize_identifier}
use project_progress_registe.Identity.Context.{clean_audit_context}
use project_progress_registe.Identity.Password.{
  decode_password_hash, check_decoded, verify_password,
}
use project_progress_registe.Identity.Throttle.{
  is_throttle, is_after, is_row_blocked, is_login_blocked,
}
use project_progress_registe.Identity.Sessions.{has_token}
use project_progress_registe.Identity.Accounts.{is_identifier, find_user_by_identifier}
use project_progress_registe.Identity.Service.{
  Service, identifier_hash, derive_csrf_token, new_session_token, refuse_login, start_session,
  hash_to_check, settle_login, check_login, is_malformed_login, login,
}
use project_progress_registe.Identity.Ops.{new_session, create_login_session-Yields}

-- No block, or one that is over.
abbrev pub IsFree : Option ThrottleRow → Instant → Type 0
IsFree none at = Unit
IsFree (some row) at =
    (row.blocked_until ≡ none)
    ⊎ ((until : Instant) × (row.blocked_until ≡ some until) × (until ≤ at))

is_after-free :
    (o : Option Instant) (at : Instant)
    → is_after o at ≡ false
    → (o ≡ none) ⊎ ((until : Instant) × (o ≡ some until) × (until ≤ at))
is_after-free none at h = inl refl
is_after-free (some until) at h = inr (until, refl, ground (arith, h))

is_row_blocked-IsFree :
    (o : Option ThrottleRow) (at : Instant) → is_row_blocked o at ≡ false → IsFree o at
unfolding is_row_blocked
is_row_blocked-IsFree none at h = tt
is_row_blocked-IsFree (some row) at h = is_after-free row.blocked_until at h

module _ (p : Platform) where
  -- The password of a verifier.
  abbrev pub IsPassword : Text → Text → Type 0
  IsPassword encoded password =
      (salt key : Text) × (decode_password_hash p encoded ≡ some (salt, key))
      × (p.argon2 password salt ≡ key)

  check_decoded-Yields :
      (decoded : Option (Text × Text)) (password : Text) {t t' : Tables} {matched : Bool}
      → Yields (check_decoded p decoded password) t matched t'
      → (salt key : Text) × (decoded ≡ some (salt, key))
        × (matched ≡ text_eq (p.argon2 password salt) key)
        × (t' ≡ t)
  unfolding check_decoded
  check_decoded-Yields none password y = raise-Yields _ y
  check_decoded-Yields (some (salt, key)) password y =
      attempt->> _ _ y
        λ y₁. let (matched, same) = pure-Yields _ y₁ in (salt, key, refl, matched, same)

  verify_password-Yields :
      (encoded password : Text) {t t' : Tables} {matched : Bool}
      → Yields (verify_password p encoded password) t matched t'
      → (salt key : Text) × (decode_password_hash p encoded ≡ some (salt, key))
        × (matched ≡ text_eq (p.argon2 password salt) key)
        × (t' ≡ t)
  unfolding verify_password
  verify_password-Yields encoded password y = check_decoded-Yields _ password y

  new_session_token-Yields :
      {t t' : Tables} {tokens : Text × Text}
      → Yields (new_session_token p) t tokens t'
      → (tokens.1 ≡ p.sha256 tokens.0) × (t' ≡ t)
  unfolding new_session_token
  new_session_token-Yields y = random_bytes->>= _ y λ raw y₁. attempt->> _ _ y₁ λ y₂.
      let (made, same) = pure-Yields _ y₂ in
      (ap (λ (v : Text × Text). v.1) made ∙ ap (λ (v : Text × Text). p.sha256 v.0) (sym made), same)

  refuse_login-Yields :
      {C : Type 0} (s : Service) (digest : Text) (audit : AuditContext) {t t' : Tables}
      {r : LoginResult}
      → Yields (refuse_login p s digest audit) t r t'
      → C
  unfolding refuse_login
  refuse_login-Yields s digest audit y = then-Yields _ _ y λ t₁ recorded rest. raise-Yields _ rest

  -- The session that a login has opened for an account.
  pub record IsOpened (s : Service) (row : UserRow) (digest : Text) (audit : AuditContext)
      (t : Tables) (r : LoginResult) (t' : Tables) : Type 0 where
    pub id : Uuid
    pub fresh : any (has_token (p.sha256 r.session_token)) t.sessions ≡ false
    pub sessions :
        t'.sessions
        ≡ t.sessions
          ++ new_session id row.id
              (p.sha256 r.session_token)
              r.expires_at
              audit.client_ip
              audit.user_agent
            ∷ []
    pub throttles : t'.throttles ≡ delete (is_throttle digest audit.client_ip) t.throttles
    pub user : r.user ≡ to_user row
    pub csrf : r.csrf_token ≡ derive_csrf_token p s.csrf_key r.session_token

  start_session-IsOpened :
      (s : Service) (row : UserRow) (digest : Text) (audit : AuditContext) {t t' : Tables}
      {r : LoginResult}
      → Yields (start_session p s row digest audit) t r t'
      → IsOpened s row digest audit t r t'
  unfolding start_session
  start_session-IsOpened s row digest audit {t} {t'} {r} y = bind-Yields _ _ y λ tokens t₁ made y₁.
      now->>= _ y₁ λ at y₂. then-Yields _ _ y₂ λ t₂ opened y₃.
        let (hashed, same) = new_session_token-Yields made in
        let (id, login_at, event, free, audited, tables) =
          create_login_session-Yields row.id tokens.1 (at + s.session_ttl) digest audit.client_ip _
            opened in
        let (result, last) = pure-Yields _ y₃ in
        let token : p.sha256 r.session_token ≡ tokens.1 =
          ap (λ (v : LoginResult). p.sha256 v.session_token) result ∙ sym hashed in
        record {
          id = id;
          fresh =
              ap (λ hash. any (has_token hash) t.sessions) token
              ∙ ap (λ (v : Tables). any (has_token tokens.1) v.sessions) (sym same)
              ∙ free;
          sessions =
              ap (λ (v : Tables). v.sessions) (last ∙ tables)
              ∙ ap
                  (λ (v : Tables).
                    v.sessions
                    ++ new_session id row.id tokens.1 (at + s.session_ttl) audit.client_ip
                        audit.user_agent
                      ∷ [])
                  same
              ∙ ap
                  (λ hash.
                    t.sessions
                    ++ new_session id row.id hash (at + s.session_ttl) audit.client_ip
                        audit.user_agent
                      ∷ [])
                  (sym token)
              ∙ ap
                  (λ (v : LoginResult).
                    t.sessions
                    ++ new_session id row.id (p.sha256 r.session_token) v.expires_at audit.client_ip
                        audit.user_agent
                      ∷ [])
                  (sym result);
          throttles =
              ap (λ (v : Tables). v.throttles) (last ∙ tables)
              ∙ ap (λ (v : Tables). delete (is_throttle digest audit.client_ip) v.throttles) same;
          user = ap (λ (v : LoginResult). v.user) result;
          csrf =
              ap (λ (v : LoginResult). v.csrf_token) result
              ∙ ap (λ (v : LoginResult). derive_csrf_token p s.csrf_key v.session_token)
                  (sym result);
        }

  -- What a login that succeeds has found and done.
  pub record IsLoggedIn (s : Service) (input : LoginInput) (audit : AuditContext) (at : Instant)
      (t : Tables) (r : LoginResult) (t' : Tables) : Type 0 where
    pub row : UserRow
    pub formed :
        is_malformed_login p s (normalize_identifier p input.identifier) input.password ≡ false
    pub found : find (is_identifier (normalize_identifier p input.identifier)) t.users ≡ some row
    pub enabled : row.enabled ≡ true
    pub password : IsPassword row.password_hash input.password
    pub unblocked :
        IsFree
          (find
            (is_throttle
              (identifier_hash p (normalize_identifier p input.identifier))
              (clean_audit_context audit).client_ip)
            t.throttles)
          at
    pub opened :
        IsOpened s row
          (identifier_hash p (normalize_identifier p input.identifier))
          (clean_audit_context audit)
          t
          r
          t'

  settle_login-Yields :
      (s : Service) (found : Option UserRow) (matched : Bool) (digest : Text) (audit : AuditContext)
      {t t' : Tables} {r : LoginResult}
      → Yields (settle_login p s found matched digest audit) t r t'
      → (row : UserRow) × (found ≡ some row)
        × (matched ≡ true)
        × (row.enabled ≡ true)
        × IsOpened s row digest audit t r t'
  unfolding settle_login
  settle_login-Yields s none matched digest audit y = refuse_login-Yields s digest audit y
  settle_login-Yields s (some row) matched digest audit y =
      branch-Yields _ _ _ y (λ refused y₁. refuse_login-Yields s digest audit y₁)
        (λ passed y₁. (
          row,
          refl,
          ground (arith, passed),
          ground (arith, passed),
          start_session-IsOpened s row digest audit y₁,
        ))

  is_login_blocked-Yields :
      (digest ip : Text) (at : Instant) {t t' : Tables} {blocked : Bool}
      → Yields (is_login_blocked digest ip at) t blocked t'
      → (blocked ≡ is_row_blocked (find (is_throttle digest ip) t.throttles) at) × (t' ≡ t)
  unfolding is_login_blocked
  is_login_blocked-Yields digest ip at y = query-Yields _ y

  find_user_by_identifier-Yields :
      (identifier : Text) {t t' : Tables} {found : Option UserRow}
      → Yields (find_user_by_identifier identifier) t found t'
      → (found ≡ find (is_identifier identifier) t.users) × (t' ≡ t)
  unfolding find_user_by_identifier
  find_user_by_identifier-Yields identifier y = query-Yields _ y

  hash_to_check-row :
      (s : Service) (found : Option UserRow) (row : UserRow)
      → found ≡ some row
      → hash_to_check p s found ≡ row.password_hash
  unfolding hash_to_check
  hash_to_check-row s none row e = cc
  hash_to_check-row s (some u) row e = ground (arith, e)

  login-Runs :
      (s : Service) (input : LoginInput) (audit : AuditContext) (w : World) {r : LoginResult}
      {w' : World}
      → Runs (login p s input audit) w r w'
      → IsLoggedIn s input audit (w.env.clock w.calls) w.tables r w'.tables
  unfolding login check_login
  login-Runs s input audit w {r} {w'} h =
      branch-Runs _ _ _ w h (λ malformed h₁. refuse_login-Yields s _ _ (Runs-Yields w h₁))
        (λ formed h₁. bind-Yields _ _ (Runs-Yields w (now-Runs->>= _ w h₁)) λ blocked t₁ asked y₃.
          branch-Yields _ _ _ y₃
            (λ refused y₄. then-Yields _ _ y₄ λ t₂ recorded rest. raise-Yields _ rest)
            (λ passed y₄. bind-Yields _ _ y₄ λ found t₂ looked y₅.
              bind-Yields _ _ y₅ λ matched t₃ verified y₆.
                let (asked_eq, same₁) = is_login_blocked-Yields _ _ (w.env.clock w.calls) asked in
                let (found_eq, same₂) = find_user_by_identifier-Yields _ looked in
                let (salt, key, decoded, matched_eq, same₃) = verify_password-Yields _ _ verified in
                let (row, is_row, is_matched, enabled, opened) =
                  settle_login-Yields s found matched _ _ y₆ in
                record {
                  row = row;
                  formed = formed;
                  found =
                      ap
                        (λ (v : Tables).
                          find (is_identifier (normalize_identifier p input.identifier)) v.users)
                        (sym same₁)
                      ∙ sym found_eq
                      ∙ is_row;
                  enabled = enabled;
                  password = (
                    salt,
                    key,
                    ap (λ h. decode_password_hash p h) (sym (hash_to_check-row s found row is_row))
                        ∙ decoded,
                    (text_eq_iff (p.argon2 input.password salt) key).0
                        (sym matched_eq ∙ is_matched),
                  );
                  unblocked = is_row_blocked-IsFree _ _ (sym asked_eq ∙ passed);
                  opened =
                      subst
                        (λ v.
                          IsOpened s row
                            (identifier_hash p (normalize_identifier p input.identifier))
                            (clean_audit_context audit) v r w'.tables)
                        (same₃ ∙ same₂ ∙ same₁) opened;
                }))

  -- A login that returns a result: the identifier is that of an enabled account, whose stored verifier
  -- accepts the password; by the clock at the start, identifier and address are not blocked; the one
  -- new session is stored under the digest of a token that no session had, for that account and until
  -- the returned expiry, the failures of the pair are forgotten, and the CSRF token is the one of the
  -- session token.
  pub login-IsLoggedIn :
      (s : Service) (input : LoginInput) (audit : AuditContext) (w : World) {r : LoginResult}
      → (run (login p s input audit) w).0 ≡ ok r
      → IsLoggedIn s input audit
          (w.env.clock w.calls)
          w.tables
          r
          (run (login p s input audit) w).1.tables
  login-IsLoggedIn s input audit w h =
      login-Runs s input audit w {w' = (run (login p s input audit) w).1}
        (record { returns = ground (arith, h) })
