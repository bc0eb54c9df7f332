-- ===== src/Postgres/Uri/Safe.antt =====
-- What a connection URI that is accepted is, and what of it the driver is given (db/postgres.py).
use ezsql.Base.{
  ℕ,   String, Bool, true, false, ◌||◌, not, Option, none, some, List, [], ◌∷◌, is_in, ◌==◌, string_eq, text_of_nat,
  ◌≡◌, ◌⊎◌, refl, ◌∙◌, inl, inr, Bool-cases, All,
}
use ezsql.Base.Dict
use ezsql.Base.Dict.{Dict}
use ezsql.Base.Entries.{All-set}
use ezsql.Postgres.Errors.{
  returns, attempt, demand, Ensures, Ensures-bind, Ensures-demand, Ensures-map, Ensures-skip,
  Ensures-attempt, Ensures-elim,
}
use ezsql.Postgres.Uri.{
  Url, DbIdentity, allowed_uri_params, secure_ssl_modes, is_unix, read_params, pass_on, put, passed,
  first_kwargs, connect_kwargs, ssl_mode_of, location, unquoted, identity_of, text_or_empty,
  password_of, port_or_default, parse_db_uri,
}

-- A socket, or TCP with a secure mode.
abbrev pub IsSecure : DbIdentity → Type 0
IsSecure i =
    ((is_unix i.host ≡ true) × (i.transport ≡ "unix"))
    ⊎ ((is_unix i.host ≡ false)
        × (i.transport ≡ "tcp")
        × (is_in i.ssl_mode secure_ssl_modes ≡ true))

abbrev pub IsExplicit : DbIdentity → Type 0
IsExplicit i = ((i.host == "") ≡ false) × ((i.database == "") ≡ false) × ((i.role == "") ≡ false)

abbrev pub IsAllowed : String × (String × List String) → Type 0
IsAllowed param = is_in param.0 allowed_uri_params ≡ true

-- The keywords for the driver. The mode of the connection is not among them.
abbrev pub keywords : List String
keywords =
    "host" ∷ "port" ∷ "user" ∷ "database" ∷ "password" ∷ "passfile" ∷ "application_name" ∷ "timeout"
    ∷ "target_session_attrs" ∷ "sslrootcert" ∷ "sslcert" ∷ "sslkey" ∷ "sslpassword" ∷ "sslcrl" ∷ []

abbrev pub IsKeyword : String × String → Type 0
IsKeyword kv = is_in kv.0 keywords ≡ true

put-IsKeyword :
    (keyword : String) (value : Option String) (kwargs : Dict String String)
    → is_in keyword keywords ≡ true
    → All IsKeyword kwargs
    → All IsKeyword (put keyword value kwargs)
put-IsKeyword keyword none kwargs k h = h
put-IsKeyword keyword (some v) kwargs k h = All-set IsKeyword keyword v kwargs k h

pass_on-IsKeyword :
    (names : List (String × String)) (params kwargs : Dict String String)
    → All (λ n. is_in n.1 keywords ≡ true) names
    → All IsKeyword kwargs
    → All IsKeyword (pass_on names params kwargs)
unfolding pass_on
pass_on-IsKeyword [] params kwargs k h = h
pass_on-IsKeyword ((name, keyword) ∷ names) params kwargs k h =
    pass_on-IsKeyword names params (put keyword (Dict.get name params) kwargs) k.1
      (put-IsKeyword keyword (Dict.get name params) kwargs k.0 h)

kwargs-IsKeyword :
    (i : DbIdentity) (password : Option String) (params : Dict String String)
    → All IsKeyword (connect_kwargs i password params)
unfolding connect_kwargs is_in
kwargs-IsKeyword i password params =
    pass_on-IsKeyword passed params (put "password" password (first_kwargs i))
      (refl, (refl, (refl, (refl, (refl, (refl, (refl, (refl, (refl, tt)))))))))
      (put-IsKeyword "password" password (first_kwargs i) refl (refl, (refl, (refl, (refl, tt)))))

get-put :
    (keyword j : String) (value : Option String) (kwargs : Dict String String)
    → (keyword == j) ≡ false
    → Dict.get j (put keyword value kwargs) ≡ Dict.get j kwargs
get-put keyword j none kwargs other = refl
get-put keyword j (some v) kwargs other = Dict.get-set keyword j v kwargs ∙ rw other refl

get-pass_on :
    (names : List (String × String)) (j : String) (params kwargs : Dict String String)
    → All (λ n. (n.1 == j) ≡ false) names
    → Dict.get j (pass_on names params kwargs) ≡ Dict.get j kwargs
unfolding pass_on
get-pass_on [] j params kwargs other = refl
get-pass_on ((name, keyword) ∷ names) j params kwargs other =
    get-pass_on names j params (put keyword (Dict.get name params) kwargs) other.1
    ∙ get-put keyword j (Dict.get name params) kwargs other.0

-- A keyword that no parameter and no password sets.
get-kwargs :
    (i : DbIdentity) (password : Option String) (params : Dict String String) (j : String)
    → All (λ n. (n.1 == j) ≡ false) passed
    → ("password" == j) ≡ false
    → Dict.get j (connect_kwargs i password params) ≡ Dict.get j (first_kwargs i)
unfolding connect_kwargs
get-kwargs i password params j other differs =
    get-pass_on passed j params (put "password" password (first_kwargs i)) other
    ∙ get-put "password" j password (first_kwargs i) differs

-- The driver is given the identity.
abbrev pub IsGiven : DbIdentity → Dict String String → Type 0
IsGiven i kwargs =
    (Dict.get "host" kwargs ≡ some i.host)
    × (Dict.get "port" kwargs ≡ some (text_of_nat i.port))
    × (Dict.get "user" kwargs ≡ some i.role)
    × (Dict.get "database" kwargs ≡ some i.database)

kwargs-IsGiven :
    (i : DbIdentity) (password : Option String) (params : Dict String String)
    → IsGiven i (connect_kwargs i password params)
unfolding Dict.get
kwargs-IsGiven i password params = (
  get-kwargs i password params "host"
      (refl, (refl, (refl, (refl, (refl, (refl, (refl, (refl, (refl, tt))))))))) refl,
  get-kwargs i password params "port"
      (refl, (refl, (refl, (refl, (refl, (refl, (refl, (refl, (refl, tt))))))))) refl,
  get-kwargs i password params "user"
      (refl, (refl, (refl, (refl, (refl, (refl, (refl, (refl, (refl, tt))))))))) refl,
  get-kwargs i password params "database"
      (refl, (refl, (refl, (refl, (refl, (refl, (refl, (refl, (refl, tt))))))))) refl,
)

read-IsAllowed :
    (query : List (String × (String × List String))) (params : Dict String String)
    → Ensures (read_params query params) (λ params. All IsAllowed query)
unfolding read_params
read-IsAllowed [] params = tt
read-IsAllowed ((key, (first, more)) ∷ query) params =
    Ensures-bind (demand (is_in key allowed_uri_params) _) _
      (λ x. is_in key allowed_uri_params ≡ true)
      (λ params. IsAllowed (key, (first, more)) × All IsAllowed query)
      (Ensures-demand (is_in key allowed_uri_params) _)
      λ x allowed.
        Ensures-map (read_params query _) (λ params. All IsAllowed query) _
          (λ params rest. (allowed, rest)) (read-IsAllowed query _)

abbrev IsSecureMode : String → String × String → Type 0
IsSecureMode host m =
    ((is_unix host ≡ true) × (m.1 ≡ "unix"))
    ⊎ ((is_unix host ≡ false) × (m.1 ≡ "tcp") × (is_in m.0 secure_ssl_modes ≡ true))

mode-IsSecure : (host ssl_mode : String) → Ensures (ssl_mode_of host ssl_mode) (IsSecureMode host)
unfolding ssl_mode_of
mode-IsSecure host ssl_mode = elim (Bool-cases (is_unix host)) [
  | inl socket ↦ rw (ssl_mode_of, socket) (inl (socket, refl))
  | inr tcp ↦
      rw (ssl_mode_of, tcp)
        (Ensures-bind (demand (is_in ssl_mode secure_ssl_modes) _) _
          (λ x. is_in ssl_mode secure_ssl_modes ≡ true) (IsSecureMode host)
          (Ensures-demand (is_in ssl_mode secure_ssl_modes) _) λ x secure. inr (tcp, refl, secure))
]

no_is_false : (b : Bool) → not b ≡ true → b ≡ false
no_is_false true h = absurd (cc h)
no_is_false false h = refl

module _ (unquote : String → String) where
  -- The identity is the one that the URI names.
  abbrev pub IsNamed : Url → DbIdentity → Type 0
  IsNamed url i =
      (i.host ≡ (location unquote url).0)
      × (i.database ≡ (location unquote url).1)
      × (i.role ≡ unquoted unquote url.username)
      × ((port : Option ℕ) × (url.port ≡ some port) × (i.port ≡ port_or_default port))

  -- What an accepted URI is.
  abbrev pub IsAccepted : Url → DbIdentity × Dict String String → Type 0
  IsAccepted url accepted =
      All IsAllowed url.query
      × IsNamed url accepted.0
      × IsExplicit accepted.0
      × IsSecure accepted.0
      × IsGiven accepted.0 accepted.1
      × All IsKeyword accepted.1

  ensures-IsAccepted : (url : Url) → Ensures (parse_db_uri unquote (some url)) (IsAccepted url)
  unfolding parse_db_uri
  ensures-IsAccepted url =
      let place = location unquote url in
      let role = unquoted unquote url.username in
      Ensures-skip (demand (url.scheme == "postgres" || url.scheme == "postgresql") _) _
        (IsAccepted url)
        λ x.
          Ensures-bind (demand (not (place.0 == "")) _) _ (λ x. not (place.0 == "") ≡ true)
            (IsAccepted url) (Ensures-demand (not (place.0 == "")) _)
            λ x host.
              Ensures-bind (demand (not (place.1 == "")) _) _ (λ x. not (place.1 == "") ≡ true)
                (IsAccepted url) (Ensures-demand (not (place.1 == "")) _)
                λ x database.
                  Ensures-bind (demand (not (role == "")) _) _ (λ x. not (role == "") ≡ true)
                    (IsAccepted url) (Ensures-demand (not (role == "")) _)
                    λ x named.
                      Ensures-bind (attempt url.port) _ (λ p. url.port ≡ some p) (IsAccepted url)
                        (Ensures-attempt url.port)
                        λ given_port e.
                          Ensures-bind (read_params url.query []) _
                            (λ params. All IsAllowed url.query) (IsAccepted url)
                            (read-IsAllowed url.query [])
                            λ params allowed.
                              Ensures-bind
                                (ssl_mode_of place.0 (text_or_empty (Dict.get "sslmode" params))) _
                                (IsSecureMode place.0) (IsAccepted url)
                                (mode-IsSecure place.0 (text_or_empty (Dict.get "sslmode" params)))
                                λ mode secure.
                                  let i = identity_of unquote url given_port mode.0 mode.1 in
                                  (
                                    allowed,
                                    (refl, refl, refl, (given_port, e, refl)),
                                    (
                                      no_is_false _ host,
                                      no_is_false _ database,
                                      no_is_false _ named,
                                    ),
                                    secure,
                                    kwargs-IsGiven i (password_of unquote url.password) params,
                                    kwargs-IsKeyword i (password_of unquote url.password) params,
                                  )

  -- A URI that is accepted has only allowed parameters, names its host, database and role, is a
  -- socket's or has a secure mode over TCP, and the driver is given the host, the port, the role and
  -- the database of the identity, with no keyword but the fourteen, none of which is the mode. The
  -- identity is the one the URI names: its location, its port or 5432, and its username unquoted.
  pub parse_db_uri-IsAccepted :
      (url : Url) {accepted : DbIdentity × Dict String String}
      → parse_db_uri unquote (some url) ≡ returns accepted
      → IsAccepted url accepted
  parse_db_uri-IsAccepted url h =
      Ensures-elim (parse_db_uri unquote (some url)) (IsAccepted url) (ensures-IsAccepted url) h
