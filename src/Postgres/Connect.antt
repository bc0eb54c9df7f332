-- ===== src/Postgres/Connect.antt =====
-- db/postgres.py: `PostgresAdapter.connect`, with the checks of the server and the role, and
-- `close`. What the driver and the server answer is a parameter; `none` stands for a query that
-- raises.
pub mod Role
pub mod Pool
pub mod Timeout
use Prim.Native.Char.{code}
use ezsql.Base.{
  ℕ, ◌+◌, String, Bool, true, false, not, Option, none, some, List, [], ◌∷◌, length, leb, nat_beq,
  string_eq, if◌then◌else◌, text_append,
}
use ezsql.Base.Dict
use ezsql.Base.Dict.{Dict}
use ezsql.Base.Int.{ℤ, pos, ltb_ℤ}
use ezsql.Postgres.Errors.{
  DbErrorCategory, DbAdapterError, database_version_unsupported, unsafe_database_role,
  db_connection_failed, error, Outcome, returns, raises, raises_other, ◌>>=◌, attempt, demand,
}
use ezsql.Postgres.Uri.{DbIdentity}

-- The row of `pg_roles`.
pub record RoleFlags : Type 0 where
  pub rolsuper : Bool
  pub rolbypassrls : Bool
  pub rolcreaterole : Bool
  pub rolcreatedb : Bool

-- The answers to the queries, in the order in which they are put.
pub record Connection : Type 0 where
  pub server_version : Option (Option String)
  pub role_flags : Option (Option RoleFlags)
  pub has_temp : Option Bool
  pub has_create : Option Bool
  pub search_path : Option (List String)
  -- `has_schema_privilege(role, schema, 'CREATE')`
  pub creates_in : String → String → Option Bool
  pub memberships : Option (List String)
  -- Schema and name of each relation that can be written, but for some schemas, up to a limit.
  pub writable : List String → ℕ → Option (List (String × String))

abbrev pub min_server_major : ℤ
min_server_major = pos 16

abbrev pub max_role_memberships : ℕ
max_role_memberships = 100

abbrev pub max_role_relations : ℕ
max_role_relations = 5000

abbrev pub system_schemas : List String
system_schemas = "pg_catalog" ∷ "information_schema" ∷ "pg_toast" ∷ []

abbrev pub unsafe : String → DbAdapterError
unsafe = error unsafe_database_role

abbrev pub failed : String → Option String → DbAdapterError
failed detail cause = record {
  category = db_connection_failed;
  detail = detail;
  driver_exception = cause;
}

-- `version_str.split(".")[0]`
unfoldable pub before_dot : String → String
before_dot String.[] = String.[]
before_dot (String.◌∷◌ c s) =
    let rest = before_dot s in if nat_beq (code c) b'.' then String.[] else String.◌∷◌ c rest

abbrev pub text_or : String → Option String → String
text_or default none = default
text_or default (some s) = s

-- `str` of an integer is in the detail alone, as a parameter, as is `int` of a text.
module _ (int : String → Option ℤ) (str : ℤ → String) where
  abbrev pub checked_major : Option ℤ → Outcome ℤ
  checked_major none =
      raises (error database_version_unsupported "could not determine server version")
  checked_major (some major) =
      demand (not (ltb_ℤ major min_server_major)) (
        error database_version_unsupported (
          text_append "PostgreSQL "
            (text_append (str major) " is below the supported minimum (16)")))
      >>= λ supported. returns major

  -- `_verify_version`, with the major version that it keeps.
  unfoldable pub verify_version : Connection → Outcome ℤ
  unfolding before_dot text_append
  verify_version conn = attempt conn.server_version >>= λ version.
      checked_major (int (before_dot (text_or "" version)))

abbrev pub found_flags : Option RoleFlags → Outcome RoleFlags
found_flags none = raises (unsafe "role not found")
found_flags (some flags) = returns flags

-- The loop over the schemas of the search path.
unfoldable pub check_schemas : Connection → String → List String → Outcome (Unit {0})
unfolding text_append
check_schemas conn role [] = returns tt
check_schemas conn role (schema ∷ schemas) = do
  creates ← attempt (conn.creates_in role schema)
  safe ← demand (not creates) (unsafe (text_append "role has CREATE on schema " schema))
  check_schemas conn role schemas

abbrev pub no_writable : List (String × String) → Outcome (Unit {0})
no_writable [] = returns tt
no_writable (first ∷ rows) = raises (
    unsafe
      (text_append "role has write privileges on " (text_append first.0 (text_append "." first.1))))

-- `_preflight_role`
unfoldable pub preflight_role : Connection → String → Outcome (Unit {0})
unfolding check_schemas
preflight_role conn role = do
  row ← attempt conn.role_flags
  flags ← found_flags row
  a ← demand (not flags.rolsuper) (unsafe "role is superuser")
  b ← demand (not flags.rolbypassrls) (unsafe "role has BYPASSRLS")
  c ← demand (not flags.rolcreaterole) (unsafe "role can create roles")
  d ← demand (not flags.rolcreatedb) (unsafe "role can create databases")
  temp_grant ← attempt conn.has_temp
  e ← demand (not temp_grant) (unsafe "role can create temporary objects")
  create_db ← attempt conn.has_create
  f ← demand (not create_db) (unsafe "role has CREATE on the database")
  schema_rows ← attempt conn.search_path
  g ← check_schemas conn role schema_rows
  memberships ← attempt conn.memberships
  h ← demand (leb (length memberships) max_role_memberships) (unsafe "role membership cap exceeded")
  write_rows ← attempt (conn.writable system_schemas (max_role_relations + 1))
  i ← demand (leb (length write_rows) max_role_relations) (unsafe "inspected relation cap exceeded")
  no_writable write_rows

-- How `create_pool` ends under its timeout: with a pool, or by an exception, the first class of
-- the `except` lines that it is of, with the name of its own.
pub data Created : Type 0 where
  created : ℕ → Created
  timed_out : Created
  postgres_error os_or_value_error : String → Created
  unforeseen : Created

-- What the world answers to `connect`; `none` where no connection is acquired.
pub record World : Type 0 where
  pub create_pool : Created
  pub acquire : Option Connection

-- The adapter's state: `closed` has the pools that were closed, the last one first.
pub record PostgresAdapter : Type 0 where
  pub identity : DbIdentity
  pub connect_kwargs : Dict String String
  pub pool : Option ℕ
  pub server_major : Option ℤ
  pub closed : List ℕ

abbrev pub new_adapter : DbIdentity × Dict String String → PostgresAdapter
new_adapter (identity, kwargs) = record {
  identity = identity;
  connect_kwargs = kwargs;
  pool = none;
  server_major = none;
  closed = [];
}

-- The adapter afterwards, and how the call ends.
abbrev pub Call : Type 0
Call = PostgresAdapter × Outcome (Unit {0})

module _ (int : String → Option ℤ) (str : ℤ → String) where
  -- What a raised error leaves: the pool is closed.
  abbrev pub after_preflight : PostgresAdapter → ℕ → Outcome (Unit {0}) → Call
  after_preflight a pool (returns x) = (record a { pool = some pool }, returns tt)
  after_preflight a pool (raises e) = (record a { closed = pool ∷ a.closed }, raises e)
  after_preflight a pool raises_other =
      (record a { closed = pool ∷ a.closed }, raises (failed "connection setup failed" none))

  -- The major version is kept before the role is checked.
  abbrev pub after_version : PostgresAdapter → ℕ → Connection → Outcome ℤ → Call
  after_version a pool conn (returns major) =
      after_preflight (record a { server_major = some major }) pool
        (preflight_role conn a.identity.role)
  after_version a pool conn (raises e) = after_preflight a pool (raises e)
  after_version a pool conn raises_other = after_preflight a pool raises_other

  abbrev pub set_up : PostgresAdapter → ℕ → Option Connection → Call
  set_up a pool none = after_preflight a pool raises_other
  set_up a pool (some conn) = after_version a pool conn (verify_version int str conn)

  abbrev pub with_pool : PostgresAdapter → World → Created → Call
  with_pool a w (created pool) = set_up a pool w.acquire
  with_pool a w timed_out = (a, raises (failed "connection timed out" (some "TimeoutError")))
  with_pool a w (postgres_error name) = (a, raises (failed "connection failed" (some name)))
  with_pool a w (os_or_value_error name) = (a, raises (failed "connection failed" (some name)))
  with_pool a w unforeseen = (a, raises_other)

  -- The call of `create_pool` has the keyword `timeout` itself, so a second one among the
  -- arguments raises a `TypeError`.
  abbrev pub with_current : PostgresAdapter → World → Option ℕ → Call
  with_current a w (some pool) = (a, returns tt)
  with_current a w none =
      if Dict.has "timeout" a.connect_kwargs then (a, raises_other) else with_pool a w w.create_pool

  -- `connect`
  unfoldable pub connect : PostgresAdapter → World → Call
  unfolding verify_version preflight_role
  connect a w = with_current a w a.pool

abbrev pub without : PostgresAdapter → Option ℕ → PostgresAdapter
without a none = a
without a (some pool) = record a { pool = none; closed = pool ∷ a.closed }

-- `close`
unfoldable pub close : PostgresAdapter → PostgresAdapter
close a = without a a.pool
