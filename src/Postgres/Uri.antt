-- ===== src/Postgres/Uri.antt =====
-- db/postgres.py: `parse_db_uri` and the identity of a database. `urlparse`, `unquote` and the
-- digest are the host's.
pub mod Safe
use Prim.Native.Char.{code}
use ezsql.Base.{
  ℕ, String, Bool, true, false, ◌||◌, not, Option, none, some, List, [], ◌∷◌, is_in, ◌==◌, nat_beq,
  string_eq, if◌then◌else◌, text_contains, text_append, text_of_nat,
}
use ezsql.Base.Dict
use ezsql.Base.Dict.{Dict}
use ezsql.Postgres.Errors.{
  DbAdapterError, invalid_database_config, error, Outcome, returns, raises, ◌>>=◌, attempt, demand,
}

-- What `urlparse` reads off a URI; `port` is `none` where reading it raises. A parameter of the
-- query, as `parse_qs` gives it, has a first value and more.
pub record Url : Type 0 where
  pub scheme : String
  pub hostname : Option String
  pub path : String
  pub username : Option String
  pub password : Option String
  pub port : Option (Option ℕ)
  pub query : List (String × (String × List String))

pub record DbIdentity : Type 0 where
  pub host : String
  pub port : ℕ
  pub database : String
  pub role : String
  pub ssl_mode : String
  pub transport : String

abbrev pub allowed_uri_params : List String
allowed_uri_params =
    "sslmode" ∷ "host" ∷ "port" ∷ "user" ∷ "password" ∷ "passfile" ∷ "sslrootcert" ∷ "sslcert"
    ∷ "sslkey" ∷ "sslpassword" ∷ "sslcrl" ∷ "connect_timeout" ∷ "application_name"
    ∷ "target_session_attrs" ∷ []

abbrev pub secure_ssl_modes : List String
secure_ssl_modes = "require" ∷ "verify-ca" ∷ "verify-full" ∷ []

-- `"|".join([...])`, of which the fingerprint is the digest.
unfoldable pub fingerprint_text : DbIdentity → String
unfolding text_append text_of_nat
fingerprint_text i = text_append i.transport (
    text_append "|" (
      text_append i.host (
        text_append "|" (
          text_append (text_of_nat i.port) (
            text_append "|" (
              text_append i.database
                (text_append "|" (text_append i.role (text_append "|" i.ssl_mode)))))))))

-- `describe`
unfoldable pub describe : DbIdentity → String
unfolding text_append text_of_nat
describe i = text_append i.transport (
    text_append "://" (
      text_append i.host
        (text_append ":" (text_append (text_of_nat i.port) (text_append "/" i.database)))))

-- `path.lstrip("/")`
unfoldable pub strip_slashes : String → String
strip_slashes String.[] = String.[]
strip_slashes (String.◌∷◌ c s) =
    let rest = strip_slashes s in if nat_beq (code c) b'/' then rest else String.◌∷◌ c s

-- The first and the last part of `path.rpartition("/")`.
unfoldable pub rpartition : String → String × String
unfolding text_contains
rpartition String.[] = (String.[], String.[])
rpartition (String.◌∷◌ c s) =
    let (before, after) = rpartition s in
    if text_contains "/" s
    then (String.◌∷◌ c before, after)
    else if nat_beq (code c) b'/'
    then (String.[], s)
    else (String.[], String.◌∷◌ c s)

abbrev pub text_or_empty : Option String → String
text_or_empty none = ""
text_or_empty (some s) = s

-- `parsed.port or 5432`
abbrev pub port_or_default : Option ℕ → ℕ
port_or_default none = 5432
port_or_default (some p) = if nat_beq p 0 then 5432 else p

abbrev pub last_value : String → List String → String
last_value first [] = first
last_value first (v ∷ vs) = last_value v vs

abbrev pub invalid : String → DbAdapterError
invalid = error invalid_database_config

-- The loop over the parameters.
unfoldable pub read_params :
    List (String × (String × List String)) → Dict String String → Outcome (Dict String String)
unfolding text_append
read_params [] params = returns params
read_params ((key, (first, more)) ∷ query) params =
    demand (is_in key allowed_uri_params)
      (invalid (text_append "unsupported connection URI parameter '" (text_append key "'")))
    >>= λ allowed. read_params query (Dict.set key (last_value first more) params)

abbrev pub put : String → Option String → Dict String String → Dict String String
put keyword none kwargs = kwargs
put keyword (some value) kwargs = Dict.set keyword value kwargs

-- `if name in params: connect_kwargs[keyword] = params[name]`, for each name and its keyword.
unfoldable pub pass_on :
    List (String × String) → Dict String String → Dict String String → Dict String String
pass_on [] params kwargs = kwargs
pass_on ((name, keyword) ∷ names) params kwargs =
    pass_on names params (put keyword (Dict.get name params) kwargs)

abbrev pub passed : List (String × String)
passed =
    ("passfile", "passfile")
    ∷ ("application_name", "application_name")
    ∷ ("connect_timeout", "timeout")
    ∷ ("target_session_attrs", "target_session_attrs")
    ∷ ("sslrootcert", "sslrootcert")
    ∷ ("sslcert", "sslcert")
    ∷ ("sslkey", "sslkey")
    ∷ ("sslpassword", "sslpassword")
    ∷ ("sslcrl", "sslcrl")
    ∷ []

-- What is given in every case.
abbrev pub first_kwargs : DbIdentity → Dict String String
first_kwargs i =
    ("host", i.host)
    ∷ ("port", text_of_nat i.port)
    ∷ ("user", i.role)
    ∷ ("database", i.database)
    ∷ []

unfoldable pub connect_kwargs : DbIdentity → Option String → Dict String String → Dict String String
unfolding text_of_nat pass_on
connect_kwargs i password params = pass_on passed params (put "password" password (first_kwargs i))

-- A path that begins with a slash is a socket's.
abbrev pub is_unix : String → Bool
is_unix String.[] = false
is_unix (String.◌∷◌ c s) = nat_beq (code c) b'/'

-- The mode of the connection: a socket may have none, and TCP needs a secure one.
unfoldable pub ssl_mode_of : String → String → Outcome (String × String)
ssl_mode_of host ssl_mode =
    if is_unix host
    then returns (if ssl_mode == "" then "unix-socket" else ssl_mode, "unix")
    else (demand (is_in ssl_mode secure_ssl_modes)
          (invalid "TCP connections require sslmode=require|verify-ca|verify-full")
        >>= λ secure. returns (ssl_mode, "tcp"))

module _ (unquote : String → String) where
  abbrev pub unquoted : Option String → String
  unquoted none = ""
  unquoted (some s) = if s == "" then "" else unquote s

  abbrev pub password_of : Option String → Option String
  password_of none = none
  password_of (some s) = if s == "" then none else some (unquote s)

  -- The host and the database.
  unfoldable pub location : Url → String × String
  unfolding strip_slashes rpartition text_contains text_append
  location url =
      let host = text_or_empty url.hostname in
      let path = strip_slashes url.path in
      let (socket_dir, database) = rpartition path in
      if url.path == ""
      then (host, "")
      else if host == ""
      then (if text_contains "/" path then (text_append "/" socket_dir, database) else ("", path))
      else (host, unquote path)

  abbrev pub identity_of : Url → Option ℕ → String → String → DbIdentity
  identity_of url given_port ssl_mode transport = record {
    host = (location url).0;
    port = port_or_default given_port;
    database = (location url).1;
    role = unquoted url.username;
    ssl_mode = ssl_mode;
    transport = transport;
  }

  -- `parsed` is `none` where `urlparse` raises.
  unfoldable pub parse_db_uri : Option Url → Outcome (DbIdentity × Dict String String)
  unfolding location read_params ssl_mode_of connect_kwargs
  parse_db_uri parsed = do
    url ← attempt parsed
    is_postgres ←
        demand (url.scheme == "postgres" || url.scheme == "postgresql")
          (invalid "connection URI must use postgres:// or postgresql:// scheme")
    has_host ←
        demand (not ((location url).0 == ""))
          (invalid "connection URI must include an explicit host")
    has_database ←
        demand (not ((location url).1 == ""))
          (invalid "connection URI must include an explicit database")
    has_role ←
        demand (not (unquoted url.username == ""))
          (invalid "connection URI must include an explicit role")
    given_port ← attempt url.port
    params ← read_params url.query []
    (ssl_mode, transport) ← ssl_mode_of (location url).0 (text_or_empty (Dict.get "sslmode" params))
    returns (
      identity_of url given_port ssl_mode transport,
      connect_kwargs (identity_of url given_port ssl_mode transport) (password_of url.password)
          params,
    )
