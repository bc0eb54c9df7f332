-- ===== src/Lifecycle.antt =====
-- src/ezsql/db/lifecycle.py: the adapters that are shared by root and configuration. A block under
-- the manager's lock has no `await` in it, so it is one function from state to state; what stands
-- after an `await` is a function of its own, over the state that other tasks have left.
pub mod World
pub mod Entering
pub mod Leaving
pub mod Cap
pub mod Leases
use ezsql.Base.{
  ℕ, suc, ◌+◌, ◌-◌, String, Bool, true, false, ◌&&◌, not, Option, none, some, List, [], ◌∷◌, map,
  length, ltb, leb, ◌==◌, nat_eq, string_eq, pair_eq, Comparable, if◌then◌else◌, nat_beq,
}
use ezsql.Base.Dict
use ezsql.Base.Dict.{Dict}

-- The resolved root, and the configuration's fingerprint with the credentials'.
abbrev pub Key : Type 0
Key = String × String

instance abbrev pub key_eq : Comparable Key
key_eq = pair_eq

-- `DbAdapterError`: the manager's own, and one that the adapter or the URI's parser raised, with
-- its category and detail.
pub data DbAdapterError : Type 0 where
  shut_down : DbAdapterError
  adapter_limit : ℕ → DbAdapterError
  initialization_failed : DbAdapterError
  raised : String → String → DbAdapterError

abbrev pub category : DbAdapterError → String
category shut_down = "db_connection_failed"
category (adapter_limit n) = "db_adapter_limit"
category initialization_failed = "db_connection_failed"
category (raised c d) = c

-- An adapter is known by its identity.
pub record AdapterEntry : Type 0 where
  pub adapter : ℕ
  pub fingerprint : String
  pub leases : ℕ
  pub draining : Bool
  pub last_warned : ℕ

-- The `_InitState` objects lie on a heap, since a waiter still holds one that the manager dropped:
-- `inits` has their addresses and `waiters` their counts.
pub record AdapterLifecycle : Type 0 where
  pub max_adapters : ℕ
  pub entries : Dict Key AdapterEntry
  pub inits : Dict Key ℕ
  pub waiters : ℕ → ℕ
  pub next_init : ℕ
  pub closed : Bool

abbrev pub init : ℕ → AdapterLifecycle
init max_adapters = record {
  max_adapters = max_adapters;
  entries = [];
  inits = [];
  waiters = λ i. 0;
  next_init = 0;
  closed = false;
}

-- How far a call of `acquire` comes before it has to wait.
pub data Entered : Type 0 where
  failed : DbAdapterError → Entered
  leased : ℕ → Entered
  waits : ℕ → Entered

abbrev pub update : (ℕ → ℕ) → ℕ → ℕ → ℕ → ℕ
update f i n j = if i == j then n else f j

-- `sum(1 for e in self._entries.values() if not e.draining)`
unfoldable pub undrained : Dict Key AdapterEntry → ℕ
undrained [] = 0
undrained ((k, e) ∷ d) = (if e.draining then 0 else 1) + undrained d

abbrev pub live : AdapterLifecycle → ℕ
live s = undrained s.entries + length s.inits

-- No entry and no task for the key: reserve a slot and start one, if there is room.
unfoldable pub start : AdapterLifecycle → Key → AdapterLifecycle × Entered
start s key = if leb s.max_adapters (live s) then (s, failed (adapter_limit s.max_adapters)) else (
  record s {
    inits = Dict.set key s.next_init s.inits;
    waiters = update s.waiters s.next_init 1;
    next_init = s.next_init + 1;
  },
  waits s.next_init,
)

-- Await the shared task, or start one.
unfoldable pub join : AdapterLifecycle → Key → Option ℕ → AdapterLifecycle × Entered
unfolding start
join s key none = start s key
join s key (some i) = (record s { waiters = update s.waiters i (s.waiters i + 1) }, waits i)

unfoldable pub reuse : AdapterLifecycle → Key → Option AdapterEntry → AdapterLifecycle × Entered
unfolding join
reuse s key none = join s key (Dict.get key s.inits)
reuse s key (some entry) = if entry.draining then join s key (Dict.get key s.inits) else (
  record s { entries = Dict.set key (record entry { leases = entry.leases + 1 }) s.entries },
  leased entry.adapter,
)

-- The block of `acquire` under the lock.
unfoldable pub enter : AdapterLifecycle → Key → AdapterLifecycle × Entered
unfolding reuse
enter s key = if s.closed then (s, failed shut_down) else reuse s key (Dict.get key s.entries)

-- `acquire` up to its first wait. The fingerprint is `inr` of what its computation raised.
pub data Fingerprint : Type 0 where
  keyed : Key → Fingerprint
  refused : DbAdapterError → Fingerprint

unfoldable pub acquire : AdapterLifecycle → Fingerprint → AdapterLifecycle × Entered
unfolding enter
acquire s (keyed key) = if s.closed then (s, failed shut_down) else enter s key
acquire s (refused e) = if s.closed then (s, failed shut_down) else (s, failed e)

-- `_release_waiter`: the state, and the task that it cancels.
unfoldable pub drop_waiter : AdapterLifecycle → Key → ℕ → AdapterLifecycle × Option ℕ
drop_waiter s key i =
    let s' : AdapterLifecycle = record s { waiters = update s.waiters i (s.waiters i - 1) } in
    if leb (s.waiters i - 1) 0
    then (record s' { inits = Dict.remove key s.inits }, some i)
    else (s', none)

abbrev pub is_current : Option ℕ → ℕ → Bool
is_current none i = false
is_current (some j) i = j == i

unfoldable pub release_waiter : AdapterLifecycle → Key → ℕ → AdapterLifecycle × Option ℕ
unfolding drop_waiter
release_waiter s key i =
    if is_current (Dict.get key s.inits) i then drop_waiter s key i else (s, none)

-- The block of `acquire` under the lock after the task has returned an adapter.
unfoldable pub publish : AdapterLifecycle → Key → ℕ → ℕ → AdapterLifecycle
publish s key i adapter = record s {
  inits = if is_current (Dict.get key s.inits) i then Dict.remove key s.inits else s.inits;
  entries =
      Dict.set key
        (record {
          adapter = adapter;
          fingerprint = key.1;
          leases = s.waiters i;
          draining = false;
          last_warned = 0;
        })
        s.entries;
}

-- How the awaited task ends for a waiter: it returns an adapter, raises a `DbAdapterError` or
-- another exception, or the waiter is cancelled.
pub data Ending : Type 0 where
  connected : ℕ → Ending
  adapter_error : DbAdapterError → Ending
  other_error cancelled : Ending

-- What the call does then: it returns an adapter or a failure, or raises `CancelledError`.
pub data Resumed : Type 0 where
  acquired : ℕ → Resumed
  failure : DbAdapterError → Resumed
  reraised : Resumed

unfoldable pub resume : AdapterLifecycle → Key → ℕ → Ending → AdapterLifecycle × Resumed
unfolding release_waiter publish
resume s key i (connected adapter) = (publish s key i adapter, acquired adapter)
resume s key i (adapter_error e) = ((release_waiter s key i).0, failure e)
resume s key i other_error = ((release_waiter s key i).0, failure initialization_failed)
resume s key i cancelled = ((release_waiter s key i).0, reraised)

-- The block of `release` under the lock, for the entry under the key.
unfoldable pub give_back :
    AdapterLifecycle → Key → ℕ → Option AdapterEntry → AdapterLifecycle × Option ℕ
give_back s key adapter none = (s, none)
give_back s key adapter (some entry) =
    if entry.adapter == adapter
    then (let leases = entry.leases - 1 in
        if entry.draining && leases == 0
        then (record s { entries = Dict.remove key s.entries }, some entry.adapter)
        else (
          record s { entries = Dict.set key (record entry { leases = leases }) s.entries },
          none,
        ))
    else (s, none)

-- `release`: the state, and the adapter that it closes.
unfoldable pub release : AdapterLifecycle → Fingerprint → ℕ → AdapterLifecycle × Option ℕ
unfolding give_back
release s (keyed key) adapter = give_back s key adapter (Dict.get key s.entries)
release s (refused e) adapter = (s, none)

-- `close`: the state, the tasks that it cancels and the adapters that it closes.
unfoldable pub close : AdapterLifecycle → AdapterLifecycle × List ℕ × List ℕ
close s = (
  record s { closed = true; inits = []; entries = [] },
  map (λ kv. kv.1) s.inits,
  map (λ kv. kv.1.adapter) s.entries,
)
