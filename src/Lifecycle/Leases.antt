-- ===== src/Lifecycle/Leases.antt =====
-- What single calls of the manager give, in every state: shared tasks, retries, leases.
use ezsql.Base.{
  ℕ, ◌+◌, ◌-◌, ◌≤◌, ◌≡◌, refl, Bool, true, false, Option, none, some, [], arith, ◌==◌, nat_eq, not,
  inl, inr, Option-cases, leb, nat_beq_iff,
}
use mathlib.Core.Option
use ezsql.Base.Dict
use ezsql.Base.Dict.{
  Dict, AllValues, AllValues-set, AllValues-get, get-set, get-set_self, get-remove, has-set,
  has-remove, has-get, length-set, length-remove-le, length-remove-lt, has_of_get,
}
use ezsql.Lifecycle.{
  Key, AdapterLifecycle, AdapterEntry, DbAdapterError, failure, waits, connected, adapter_error,
  enter, resume, release, close, keyed, key_eq, update, live, is_current, join, reuse, publish,
  give_back,
}
use ezsql.Lifecycle.World.{World, Reach, IsUndrained, initial}
use ezsql.Lifecycle.Cap.{Reach-Inv, give_back_undrained, enter_open}

-- An entry that `enter` takes.
abbrev is_reusable : Option AdapterEntry → Bool
is_reusable none = false
is_reusable (some e) = not e.draining

enter-join :
    (s : AdapterLifecycle) (key : Key)
    → s.closed ≡ false
    → is_reusable (Dict.get key s.entries) ≡ false
    → enter s key ≡ join s key (Dict.get key s.inits)
unfolding enter
enter-join s key h k = elim (Option-cases (Dict.get key s.entries)) [
  | inl absent ↦ rw (enter_open s key h, absent, reuse)
  | inr (e, there) ↦
      let d : e.draining ≡ true = ground (arith, k, there) in
      rw (enter_open s key h, there, reuse) (simp d)
]

-- What a call that waits leaves behind.
waits_left :
    (s : AdapterLifecycle) (key : Key) (i : ℕ)
    → (enter s key).1 ≡ waits i
    → ((enter s key).0.closed ≡ false)
      × (is_reusable (Dict.get key (enter s key).0.entries) ≡ false)
      × (Dict.get key (enter s key).0.inits ≡ some i)
unfolding enter
waits_left s key i h = ground (arith, get-set_self key s.next_init s.inits)

-- While a manager is not shut down, no `release` closes an adapter.
pub release_closes_nothing :
    (n : ℕ) (first : Key) {w : World} (key : Key) (adapter : ℕ)
    → Reach (initial n first) w
    → w.state.closed ≡ false
    → (release w.state (keyed key) adapter).1 ≡ none
unfolding release
release_closes_nothing n first {w} key adapter r opened =
    elim (Option-cases (Dict.get key w.state.entries)) [
      | inl absent ↦ rw (absent, give_back)
      | inr (e, there) ↦
          let h : e.draining ≡ false =
            AllValues-get IsUndrained key w.state.entries (Reach-Inv n first r opened).undrained
              there in
          rw (there, give_back_undrained w.state key adapter e h) (ground arith)
    ]

module _ (s : AdapterLifecycle) (key : Key) where
  -- A call that has to wait starts one task: a second call for the key waits for the same one, and
  -- is counted.
  pub enter_shares :
      (i : ℕ)
      → (enter s key).1 ≡ waits i
      → let again = enter (enter s key).0 key in
        (again.1 ≡ waits i)
        × (again.0.waiters i ≡ (enter s key).0.waiters i + 1)
        × (again.0.inits ≡ (enter s key).0.inits)
  unfolding join
  enter_shares i h =
      let (opened, free, now) = waits_left s key i h in
      let again = enter-join (enter s key).0 key opened free in
      rw (again, now, join) (refl, ground arith, refl)

  module _ (adapter : ℕ) (i : ℕ) where
    abbrev published_entry : AdapterEntry
    published_entry = record {
      adapter = adapter;
      fingerprint = key.1;
      leases = s.waiters i;
      draining = false;
      last_warned = 0;
    }

    abbrev returned_entry : AdapterEntry
    returned_entry = record published_entry { leases = s.waiters i - 1; draining = false }

    published_back : release (publish s key i adapter) (keyed key) adapter ≡ (
      record (publish s key i adapter) {
        entries = Dict.set key returned_entry (publish s key i adapter).entries;
      },
      none,
    )
    unfolding publish release
    published_back =
        rw (get-set_self, give_back)
          (rw (give_back_undrained (publish s key i adapter) key adapter published_entry refl)
            (simp ((nat_beq_iff adapter adapter).1 refl)))

    -- The second of two waiters publishes after the first has got its adapter and given it back:
    -- the count of leases is again that of both.
    pub publish_resets_leases :
        let first = publish s key i adapter in
        let back = (release first (keyed key) adapter).0 in
        let second = publish back key i adapter in
        Option.map (λ e. e.leases) (Dict.get key back.entries) ≡ some (s.waiters i - 1)
        × (Option.map (λ e. e.leases) (Dict.get key second.entries) ≡ some (s.waiters i))
    publish_resets_leases =
        rw published_back (rw get-set_self refl, unfold publish in rw get-set_self refl)

    -- A waiter whose task had ended goes on after `close`: its adapter is put into the manager that
    -- is shut down, which had no entry left and has closed its adapters already.
    pub publish_after_close :
        let shut = (close s).0 in
        let after = (resume shut key i (connected adapter)).0 in
        (shut.entries ≡ [])
        × (after.closed ≡ true)
        × (Option.map (λ e. e.adapter) (Dict.get key after.entries) ≡ some adapter)
    unfolding close resume
    publish_after_close = (refl, refl, simp get-set_self)

  -- A task that failed is not kept: once its only waiter has been given the error, the next call
  -- for the key starts a task of its own.
  pub failure_not_cached :
      (i : ℕ) (e : DbAdapterError)
      → s.closed ≡ false
      → Dict.get key s.entries ≡ none
      → Dict.get key s.inits ≡ some i
      → s.waiters i ≡ 1
      → live s ≤ s.max_adapters
      → ((resume s key i (adapter_error e)).1 ≡ failure e)
        × ((enter (resume s key i (adapter_error e)).0 key).1 ≡ waits s.next_init)
  unfolding resume
  failure_not_cached i e opened absent now one room =
      let last : leb (s.waiters i - 1) 0 ≡ true = ground arith in
      let current : is_current (Dict.get key s.inits) i ≡ true = rw now (ground arith) in
      (
        refl,
        rw (current, last)
            (rw (enter-join dropped key opened (rw absent refl), get-remove, key_refl)
              (unfold join in
                ground (arith, length-remove-lt key s.inits (has_of_get key s.inits now)))),
      )
    where
      key_refl : (key == key) ≡ true
      key_refl = (key_eq.decides key key).1 refl

      dropped : AdapterLifecycle
      dropped = record s {
        waiters = update s.waiters i (s.waiters i - 1);
        inits = Dict.remove key s.inits;
      }
