-- ===== src/Postgres/Connect/Timeout.antt =====
-- When the adapter connects, and that it never does with a URI that gives `connect_timeout`
-- (db/postgres.py).
use ezsql.Base.{
  ℕ, String, true, false, ◌||◌, not, Option, none, some, List, [], ◌∷◌, map, is_in, ◌==◌, ◌≡◌, refl,
  sym, subst, string_eq, arith,
}
use ezsql.Base.Dict
use ezsql.Base.Dict.{Dict}
use ezsql.Base.Int.{ℤ}
use ezsql.Postgres.Errors.{
  returns, raises_other, attempt, demand, Ensures, Ensures-bind, Ensures-skip, Ensures-demand,
  Ensures-elim,
}
use ezsql.Postgres.Uri.{
  Url, DbIdentity, put, pass_on, connect_kwargs, read_params, first_kwargs, parse_db_uri,
  allowed_uri_params, location, unquoted, ssl_mode_of, text_or_empty, identity_of, password_of,
  last_value,
}
use ezsql.Postgres.Connect.{
  Connection, World, created, PostgresAdapter, new_adapter, with_current, connect, verify_version,
}
use ezsql.Postgres.Connect.Role.{IsSafeRole, preflight_exact}

has-put :
    (keyword j : String) (value : Option String) (kwargs : Dict String String)
    → Dict.has j kwargs ≡ true
    → Dict.has j (put keyword value kwargs) ≡ true
has-put keyword j none kwargs h = h
has-put keyword j (some v) kwargs h = ground (arith, Dict.has-set keyword j v kwargs, h)

has-pass_on :
    (names : List (String × String)) (j : String) (params kwargs : Dict String String)
    → Dict.has j kwargs ≡ true
    → Dict.has j (pass_on names params kwargs) ≡ true
unfolding pass_on
has-pass_on [] j params kwargs h = h
has-pass_on ((name, keyword) ∷ names) j params kwargs h =
    has-pass_on names j params (put keyword (Dict.get name params) kwargs)
      (has-put keyword j (Dict.get name params) kwargs h)

-- What is given has its keyword.
given_lem :
    (keyword : String) (value : Option String) (kwargs : Dict String String)
    → (value ≡ none → ⊥)
    → Dict.has keyword (put keyword value kwargs) ≡ true
given_lem keyword none kwargs given = absurd (given refl)
given_lem keyword (some v) kwargs given =
    ground (arith, Dict.has-set keyword keyword v kwargs, string_eq.decides keyword keyword)

not_none : (j : String) (d : Dict String String) → Dict.has j d ≡ true → Dict.get j d ≡ none → ⊥
not_none j d h none_there = ground (arith, h, Dict.has-get j d, none_there)

abbrev after_timeout : List (String × String)
after_timeout =
    ("target_session_attrs", "target_session_attrs")
    ∷ ("sslrootcert", "sslrootcert")
    ∷ ("sslcert", "sslcert")
    ∷ ("sslkey", "sslkey")
    ∷ ("sslpassword", "sslpassword")
    ∷ ("sslcrl", "sslcrl")
    ∷ []

kwargs-has_timeout :
    (i : DbIdentity) (password : Option String) (params : Dict String String)
    → Dict.has "connect_timeout" params ≡ true
    → Dict.has "timeout" (connect_kwargs i password params) ≡ true
unfolding connect_kwargs pass_on
kwargs-has_timeout i password params h =
    let k = put "password" password (first_kwargs i) in
    let k' = put "passfile" (Dict.get "passfile" params) k in
    let k'' = put "application_name" (Dict.get "application_name" params) k' in
    has-pass_on after_timeout "timeout" params
      (put "timeout" (Dict.get "connect_timeout" params) k'')
      (given_lem "timeout" (Dict.get "connect_timeout" params) k''
        (not_none "connect_timeout" params h))

abbrev names_of : List (String × (String × List String)) → List String
names_of = map (λ q. q.0)

has-read :
    (j : String) (query : List (String × (String × List String))) (params : Dict String String)
    → (is_in j (names_of query) || Dict.has j params) ≡ true
    → Ensures (read_params query params) (λ ps. Dict.has j ps ≡ true)
unfolding read_params is_in
has-read j [] params h = h
has-read j ((key, (first, more)) ∷ query) params h =
    Ensures-bind (demand (is_in key allowed_uri_params) _) _
      (λ x. is_in key allowed_uri_params ≡ true) (λ ps. Dict.has j ps ≡ true)
      (Ensures-demand (is_in key allowed_uri_params) _)
      λ x allowed.
        has-read j query (Dict.set key (last_value first more) params)
          (ground (arith, h, Dict.has-set key j (last_value first more) params))

abbrev HasTimeout : DbIdentity × Dict String String → Type 0
HasTimeout accepted = Dict.has "timeout" accepted.1 ≡ true

module _ (unquote : String → String) where
  timeout-Ensures :
      (url : Url)
      → is_in "connect_timeout" (names_of url.query) ≡ true
      → Ensures (parse_db_uri unquote (some url)) HasTimeout
  unfolding parse_db_uri
  timeout-Ensures url h =
      Ensures-skip (demand (url.scheme == "postgres" || url.scheme == "postgresql") _) _ HasTimeout
        λ a. Ensures-skip (demand (not ((location unquote url).0 == "")) _) _ HasTimeout λ b.
          Ensures-skip (demand (not ((location unquote url).1 == "")) _) _ HasTimeout λ c.
            Ensures-skip (demand (not (unquoted unquote url.username == "")) _) _ HasTimeout λ d.
              Ensures-skip (attempt url.port) _ HasTimeout λ given_port.
                Ensures-bind (read_params url.query []) _
                  (λ ps. Dict.has "connect_timeout" ps ≡ true) HasTimeout
                  (has-read "connect_timeout" url.query [] (ground (arith, h)))
                  λ params there.
                    Ensures-skip
                      (ssl_mode_of (location unquote url).0
                        (text_or_empty (Dict.get "sslmode" params)))
                      _ HasTimeout
                      λ mode.
                        kwargs-has_timeout (identity_of unquote url given_port mode.0 mode.1)
                          (password_of unquote url.password) params there

module _ (int : String → Option ℤ) (str : ℤ → String) where
  -- An adapter made from an accepted URI with the allowed parameter `connect_timeout` never
  -- connects, whatever the server is: the call raises, and not by an error of the adapter.
  pub connect_timeout_raises :
      (unquote : String → String) (url : Url) {accepted : DbIdentity × Dict String String}
      (w : World)
      → parse_db_uri unquote (some url) ≡ returns accepted
      → is_in "connect_timeout" (names_of url.query) ≡ true
      → connect int str (new_adapter accepted) w ≡ (new_adapter accepted, raises_other)
  unfolding connect
  connect_timeout_raises unquote url {accepted} w h there =
      let twice : Dict.has "timeout" accepted.1 ≡ true =
        Ensures-elim (parse_db_uri unquote (some url)) HasTimeout
          (timeout-Ensures unquote url there) h in
      rw twice refl

  -- With no second timeout, a pool, a supported server and a safe role, the adapter connects: it
  -- keeps the pool and the version.
  pub connect_succeeds :
      (a : PostgresAdapter) (w : World) (pool : ℕ) (conn : Connection) (major : ℤ)
      → a.pool ≡ none
      → Dict.has "timeout" a.connect_kwargs ≡ false
      → w.create_pool ≡ created pool
      → w.acquire ≡ some conn
      → verify_version int str conn ≡ returns major
      → IsSafeRole conn a.identity.role
      → connect int str a w ≡ (record a { pool = some pool; server_major = some major }, returns tt)
  unfolding connect
  connect_succeeds a w pool conn major fresh once made acquired version safe =
      subst
        (λ o.
          with_current int str a w o
          ≡ (record a { pool = some pool; server_major = some major }, returns tt))
        (sym fresh)
        (rw (once, made, acquired, version, (preflight_exact conn a.identity.role).1 safe) refl)
