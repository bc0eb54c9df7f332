-- ===== src/Postgres/Connect/Pool.antt =====
-- When the adapter has a pool (db/postgres.py, `connect` and `close`).
use ezsql.Base.{
  ℕ, String, Option, none, some, ◌∷◌, ◌≡◌, ◌⊎◌, refl, sym, subst, inl, inr, ap, true, false, Bool-cases, string_eq,
}
use ezsql.Base.Dict
use ezsql.Base.Int.{ℤ}
use ezsql.Postgres.Errors.{Outcome, returns, raises, raises_other, Ensures}
use ezsql.Postgres.Connect.{
  Connection, World, Created, created, timed_out, postgres_error, os_or_value_error, unforeseen,
  PostgresAdapter, Call, after_preflight, after_version, set_up, with_pool, with_current, connect,
  verify_version, preflight_role,
}
use ezsql.Postgres.Connect.Role.{IsSafeRole, IsSupported, preflight_exact, version-IsSupported}

module _ (int : String → Option ℤ) (str : ℤ → String) where
  -- The pool was made and stays open, on a server and with a role that were found safe.
  pub record IsOpened (a : PostgresAdapter) (w : World) (a' : PostgresAdapter) : Type 0 where
    pub pool : ℕ
    pub made : w.create_pool ≡ created pool
    pub kept : a'.pool ≡ some pool
    pub unclosed : a'.closed ≡ a.closed
    pub conn : Connection
    pub acquired : w.acquire ≡ some conn
    pub major : ℤ
    pub version : a'.server_major ≡ some major
    pub supported : IsSupported int str conn major
    pub role : IsSafeRole conn a.identity.role

  -- The pool that `create_pool` makes when it is called.
  abbrev pub made_pool : Created → Option ℕ
  made_pool (created pool) = some pool
  made_pool _ = none

  -- There is no pool: `create_pool` was not called, or it made none, or the one it made is closed.
  abbrev pub IsShut : PostgresAdapter → World → PostgresAdapter → Type 0
  IsShut a w a' =
      (a'.pool ≡ none)
      × (((Dict.has "timeout" a.connect_kwargs ≡ true) × (a'.closed ≡ a.closed))
          ⊎ ((made_pool w.create_pool ≡ none) × (a'.closed ≡ a.closed))
          ⊎ ((Dict.has "timeout" a.connect_kwargs ≡ false)
              × ((pool : ℕ) × (w.create_pool ≡ created pool) × (a'.closed ≡ pool ∷ a.closed))))

  -- A call that returns has opened the pool, and one that raises has shut it.
  abbrev pub IsSettled : PostgresAdapter → World → Call → Type 0
  IsSettled a w (a', returns x) = IsOpened a w a'
  IsSettled a w (a', _) = IsShut a w a'

  module _ (a : PostgresAdapter) (w : World) (fresh : a.pool ≡ none)
      (single : Dict.has "timeout" a.connect_kwargs ≡ false) where
    set_up-IsSettled :
        (pool : ℕ) (o : Option Connection)
        → w.create_pool ≡ created pool
        → w.acquire ≡ o
        → IsSettled a w (set_up int str a pool o)
    set_up-IsSettled pool none made e = (fresh, inr (inr (single, (pool, made, refl))))
    set_up-IsSettled pool (some conn) made e =
        by_version (verify_version int str conn) (version-IsSupported int str conn)
      where
        by_role :
            (major : ℤ) (r : Outcome (Unit {0}))
            → IsSupported int str conn major
            → preflight_role conn a.identity.role ≡ r
            → IsSettled a w
                (after_preflight int str (record a { server_major = some major }) pool r)
        by_role major (returns x) supported role = record {
          pool = pool;
          made = made;
          kept = refl;
          unclosed = refl;
          conn = conn;
          acquired = e;
          major = major;
          version = refl;
          supported = supported;
          role = (preflight_exact conn a.identity.role).0 role;
        }
        by_role major (raises e) supported role = (fresh, inr (inr (single, (pool, made, refl))))
        by_role major raises_other supported role = (fresh, inr (inr (single, (pool, made, refl))))

        by_version :
            (r : Outcome ℤ)
            → Ensures r (IsSupported int str conn)
            → IsSettled a w (after_version int str a pool conn r)
        by_version (returns major) supported = by_role major _ supported refl
        by_version (raises e) supported = (fresh, inr (inr (single, (pool, made, refl))))
        by_version raises_other supported = (fresh, inr (inr (single, (pool, made, refl))))

    with_pool-IsSettled :
        (c : Created) → w.create_pool ≡ c → IsSettled a w (with_pool int str a w c)
    with_pool-IsSettled (created pool) e = set_up-IsSettled pool w.acquire e refl
    with_pool-IsSettled timed_out e = (fresh, inr (inl (ap made_pool e, refl)))
    with_pool-IsSettled (postgres_error name) e = (fresh, inr (inl (ap made_pool e, refl)))
    with_pool-IsSettled (os_or_value_error name) e = (fresh, inr (inl (ap made_pool e, refl)))
    with_pool-IsSettled unforeseen e = (fresh, inr (inl (ap made_pool e, refl)))

  -- An adapter without a pool that connects either returns with an open pool, on a server of a
  -- supported version and with a role that the preflight found safe, or raises and has no pool:
  -- then `create_pool` was not called because of a second `timeout`, or it made no pool, and
  -- nothing is closed, or it made a pool, and that pool is closed.
  pub connect-IsSettled :
      (a : PostgresAdapter) (w : World) → a.pool ≡ none → IsSettled a w (connect int str a w)
  unfolding connect
  connect-IsSettled a w fresh =
      subst (λ o. IsSettled a w (with_current int str a w o)) (sym fresh)
        (elim (Bool-cases (Dict.has "timeout" a.connect_kwargs)) [
          | inl twice ↦ rw twice (fresh, inl (twice, refl))
          | inr single ↦ rw single (with_pool-IsSettled a w fresh single w.create_pool refl)
        ])
