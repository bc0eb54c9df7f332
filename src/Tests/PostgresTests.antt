-- ===== src/Tests/PostgresTests.antt =====
-- A URI over TCP, a server that answers well, and one that raises.
use ezsql.Base.{
  String, true, false, Option, none, some, List, [], ◌∷◌, ◌==◌, string_eq, is_in, ◌≡◌, refl,
  if◌then◌else◌, text_append, text_of_nat, text_contains, arith,
}
use ezsql.Base.Dict
use ezsql.Base.Dict.{Dict}
use ezsql.Base.Int.{ℤ, pos}
use ezsql.Gate.{ExplainableQuery}
use ezsql.Postgres.Errors.{returns, raises, raises_other, DbAdapterError, explain_total_timeout}
use ezsql.Postgres.Uri.{
  Url, DbIdentity, parse_db_uri, connect_kwargs, pass_on, read_params, ssl_mode_of, strip_slashes,
  location, fingerprint_text,
}
use ezsql.Postgres.Uri.Safe.{IsAccepted, parse_db_uri-IsAccepted}
use ezsql.Postgres.Connect.{
  RoleFlags, Connection, World, created, PostgresAdapter, new_adapter, connect, verify_version,
  preflight_role, before_dot, check_schemas,
}
use ezsql.Postgres.Connect.Role.{IsSafeRole}
use ezsql.Postgres.Connect.Pool.{IsSettled, connect-IsSettled}
use ezsql.Postgres.Connect.Timeout.{connect_timeout_raises, connect_succeeds}
use ezsql.Postgres.Explain.{
  Settings, Transaction, Executed, fetched, raised, explain, transaction, byte_length, translate,
  read_plan,
}
use ezsql.Postgres.Explain.Bounds.{IsExplained, explain-IsExplained}
use ezsql.Postgres.Explain.Failures.{IsTyped, explain-IsTyped}
use ezsql.Tests.Host.{integers, literals}
use ezsql.Tests.PlanTests.{limits, loaded, text_of, whole, normalize_runs}

run : Unit {0}
unfolding parse_db_uri location read_params ssl_mode_of connect_kwargs pass_on strip_slashes is_in
    Dict.get Dict.set Dict.has text_append text_of_nat text_contains verify_version before_dot
    connect preflight_role check_schemas
run = tt

abbrev url : List (String × (String × List String)) → Url
url query = record {
  scheme = "postgres";
  hostname = some "db";
  path = "/shop";
  username = some "reader";
  password = some "secret";
  port = some none;
  query = query;
}

abbrev plain : Url
plain = url (("sslmode", ("require", [])) ∷ ("application_name", ("a", "b" ∷ [])) ∷ [])

abbrev same : String → String
same s = s

abbrev identity : DbIdentity
identity = record {
  host = "db";
  port = 5432;
  database = "shop";
  role = "reader";
  ssl_mode = "require";
  transport = "tcp";
}

abbrev accepted : DbIdentity × Dict String String
accepted = (
  identity,
  ("host", "db")
      ∷ ("port", "5432")
      ∷ ("user", "reader")
      ∷ ("database", "shop")
      ∷ ("password", "secret")
      ∷ ("application_name", "b")
      ∷ [],
)

is_accepted : parse_db_uri same (some plain) ≡ returns accepted
unfolding run
is_accepted = refl

parse_db_uri-IsAccepted_example : IsAccepted same plain accepted
parse_db_uri-IsAccepted_example = parse_db_uri-IsAccepted same plain is_accepted

-- The database `a|b` of the role `c`, and the database `a` of the role `b|c`.
same_fingerprint :
    fingerprint_text (record identity { database = "a|b"; role = "c" })
    ≡ fingerprint_text (record identity { database = "a"; role = "b|c" })
unfolding run fingerprint_text
same_fingerprint = refl

abbrev impatient : Url
impatient = url (("sslmode", ("require", [])) ∷ ("connect_timeout", ("9", [])) ∷ [])

abbrev impatient_accepted : DbIdentity × Dict String String
impatient_accepted = (
  identity,
  ("host", "db")
      ∷ ("port", "5432")
      ∷ ("user", "reader")
      ∷ ("database", "shop")
      ∷ ("password", "secret")
      ∷ ("timeout", "9")
      ∷ [],
)

impatient_runs : parse_db_uri same (some impatient) ≡ returns impatient_accepted
unfolding run
impatient_runs = refl

abbrev no_flags : RoleFlags
no_flags = record {
  rolsuper = false;
  rolbypassrls = false;
  rolcreaterole = false;
  rolcreatedb = false;
}

abbrev server : Connection
server = record {
  server_version = some (some "16.2");
  role_flags = some (some no_flags);
  has_temp = some false;
  has_create = some false;
  search_path = some ("public" ∷ []);
  creates_in = λ role schema. some false;
  memberships = some [];
  writable = λ schemas limit. some [];
}

abbrev world : World
world = record { create_pool = created 7; acquire = some server }

abbrev int : String → Option ℤ
int s = if s == "16" then some (pos 16) else none

abbrev str : ℤ → String
str n = "n"

connect_timeout_raises_example :
    connect int str (new_adapter impatient_accepted) world
    ≡ (new_adapter impatient_accepted, raises_other)
unfolding is_in
connect_timeout_raises_example =
    connect_timeout_raises int str same impatient world impatient_runs refl

safe : IsSafeRole server "reader"
safe = record {
  flags = no_flags;
  row = refl;
  plain = (refl, refl, refl, refl);
  temp = refl;
  create = refl;
  schemas = "public" ∷ [];
  path = refl;
  closed = (refl, tt);
  groups = [];
  members = refl;
  few = omega arith;
  nothing = refl;
}

version_runs : verify_version int str server ≡ returns (pos 16)
unfolding run
version_runs = refl

abbrev connected : PostgresAdapter
connected = record (new_adapter accepted) { pool = some 7; server_major = some (pos 16) }

connect_succeeds_example : connect int str (new_adapter accepted) world ≡ (connected, returns tt)
unfolding Dict.has
connect_succeeds_example =
    connect_succeeds int str (new_adapter accepted) world 7 server (pos 16) refl refl refl refl
      version_runs safe

connect-IsSettled_example :
    IsSettled int str (new_adapter accepted) world (connect int str (new_adapter accepted) world)
connect-IsSettled_example = connect-IsSettled int str (new_adapter accepted) world refl

abbrev settings : Settings
settings = record {
  statement_timeout = "30000";
  lock_timeout = "5000";
  max_plan_response_bytes = 10;
  limits = limits;
}

abbrev query : ExplainableQuery
query = record { canonical_sql = "SELECT 1"; has_placeholders = true }

abbrev answers : Transaction → Executed
answers t = fetched (some "[plan]")

abbrev cancels : Transaction → Executed
cancels t = raised (record { isinstance = λ c. c == "TimeoutError"; name = "TimeoutError" })

abbrev timed_out : DbAdapterError
timed_out = record {
  category = explain_total_timeout;
  detail = "operation timed out";
  driver_exception = some "TimeoutError";
}

times_out :
    explain integers literals text_of (λ s. loaded) (pos 0) cancels connected settings query
    ≡ raises timed_out
unfolding explain translate
times_out = refl

explain-IsTyped_example : IsTyped (cancels (transaction settings query)) timed_out
explain-IsTyped_example =
    explain-IsTyped integers literals text_of (λ s. loaded) (pos 0) cancels connected settings query
      times_out

explains :
    explain integers literals text_of (λ s. loaded) (pos 0) answers connected settings query
    ≡ returns whole
unfolding explain read_plan byte_length
explains = rw normalize_runs refl

explain-IsExplained_example :
    IsExplained integers literals text_of
      (λ s. loaded)
      (pos 0)
      answers
      connected
      settings
      query
      whole
explain-IsExplained_example =
    explain-IsExplained integers literals text_of (λ s. loaded) (pos 0) answers connected settings
      query explains
