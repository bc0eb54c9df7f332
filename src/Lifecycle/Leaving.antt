-- ===== src/Lifecycle/Leaving.antt =====
-- Each way to go on from the wait in `acquire` keeps the invariant.
use ezsql.Base.{
  ℕ, ◌+◌, ◌-◌, ◌<◌, ◌≡◌, ◌≢◌, refl, subst, true, false, some, List, ◌∷◌, ◌++◌, arith, if◌then◌else◌,
  All, All-map, All-split, All-zip, ◌==◌, nat_eq, inl, inr, Bool-cases, leb,
}
use ezsql.Base.Dict
use ezsql.Base.Dict.{
  Dict, AllValues, AllValues-set, AllValues-get, get-set, get-remove, has-set, has-remove, has-get,
  length-set, length-remove-le, length-remove-lt, has_of_get,
}
use ezsql.Lifecycle.{Key, AdapterEntry, key_eq, update, is_current, publish}
use ezsql.Lifecycle.World.{World, count, count-append, IsWaiting, IsRunning, IsUndrained}
use ezsql.Lifecycle.Entering.{count_zero, current→eq, not-current, touch-IsRunning}

module _ (w : World) (r : IsRunning w) where
  module _ (before after : List (Key × ℕ)) (key : Key) (i : ℕ)
      (split : w.waiting ≡ before ++ (key, i) ∷ after) where
    abbrev pub rest : List (Key × ℕ)
    rest = before ++ after

    parts : IsWaiting w (key, i) × All (IsWaiting w) rest
    parts = All-split (IsWaiting w) before (key, i) after (subst (All (IsWaiting w)) split r.listed)

    count-rest : (j : ℕ) → count j w.waiting ≡ (if i == j then 1 else 0) + count j rest
    count-rest j = rw (split, count-append, count-append) (omega arith)

    -- The call goes on, and its address is no longer the current one of its key.
    pub skip-IsRunning :
        is_current (Dict.get key w.state.inits) i ≡ false → IsRunning (record w { waiting = rest })
    skip-IsRunning stale = record {
      capped = r.capped;
      undrained = r.undrained;
      current = λ k j g.
          let (a, b, c) = r.current k j g in
          (
            a,
            b,
            ground (
              arith,
              count-rest j,
              parts.0.owned,
              not-current (Dict.get key w.state.inits) i stale,
            ),
          );
      listed =
          All-map rest (λ c g. record { owned = g.owned; old = g.old; covered = g.covered })
            parts.1;
    }

    -- It was not the last to wait.
    pub leave-IsRunning :
        is_current (Dict.get key w.state.inits) i ≡ true
        → leb (w.state.waiters i - 1) 0 ≡ false
        → IsRunning (record w {
          state = record w.state { waiters = update w.state.waiters i (w.state.waiters i - 1) };
          waiting = rest;
        })
    leave-IsRunning is_now more = record {
      capped = r.capped;
      undrained = r.undrained;
      current = λ k j g. let (a, b, c) = r.current k j g in (a, b, ground (arith, count-rest j));
      listed =
          All-map rest (λ c g. record { owned = g.owned; old = g.old; covered = g.covered })
            parts.1;
    }

    -- The other keys' addresses are left alone.
    other_current :
        Dict.get key w.state.inits ≡ some i
        → (k : Key) (j : ℕ) → Dict.get k (Dict.remove key w.state.inits) ≡ some j
        → (w.owner j ≡ k)
          × (j < w.state.next_init)
          × (update w.state.waiters i (w.state.waiters i - 1) j ≡ count j rest)
          × (w.state.waiters j ≡ count j rest)
    other_current now k j g =
        let g' : Dict.get k w.state.inits ≡ some j =
          ground (arith, get-remove key k w.state.inits, g) in
        let apart : (key == k) ≡ false = ground (arith, get-remove key k w.state.inits, g) in
        let (a, b, c) = r.current k j g' in
        let other : i ≢ j = ground (arith, parts.0.owned, key_eq.decides key k) in
        (a, b, ground (arith, count-rest j), ground (arith, count-rest j))

    -- It was the last to wait: the address is dropped, and its task is cancelled.
    pub drop-IsRunning :
        is_current (Dict.get key w.state.inits) i ≡ true
        → leb (w.state.waiters i - 1) 0 ≡ true
        → IsRunning (record w {
          state = record w.state {
            waiters = update w.state.waiters i (w.state.waiters i - 1);
            inits = Dict.remove key w.state.inits;
          };
          waiting = rest;
        })
    drop-IsRunning is_now last =
        let now : Dict.get key w.state.inits ≡ some i = current→eq _ i is_now in
        let (a, b, c) = r.current key i now in
        let nobody : count i rest ≡ 0 = ground (arith, count-rest i) in
        record {
          capped = omega (arith, r.capped, length-remove-le key w.state.inits);
          undrained = r.undrained;
          current = λ k j g. (let (a, b, c, d) = other_current now k j g in (a, b, c));
          listed =
              All-map rest
                (λ c g. record {
                  owned = g.0.owned;
                  old = g.0.old;
                  covered = ground (
                    arith,
                    g.0.covered,
                    get-remove key c.0 w.state.inits,
                    key_eq.decides key c.0,
                    g.1,
                    now,
                  );
                })
                (All-zip (IsWaiting w) (λ c. c.1 ≢ i) rest parts.1 (count_zero i rest nobody));
        }

    abbrev new_entry : ℕ → AdapterEntry
    new_entry adapter = record {
      adapter = adapter;
      fingerprint = key.1;
      leases = w.state.waiters i;
      draining = false;
      last_warned = 0;
    }

    published : ℕ → Dict Key ℕ → World
    published adapter inits = record w {
      state = record w.state {
        inits = inits;
        entries = Dict.set key (new_entry adapter) w.state.entries;
      };
      waiting = rest;
    }

    published_again :
        (adapter : ℕ)
        → is_current (Dict.get key w.state.inits) i ≡ false
        → IsRunning (published adapter w.state.inits)
    unfolding published
    published_again adapter stale =
        let there : Dict.has key w.state.entries ≡ true =
          ground (arith, parts.0.covered, not-current (Dict.get key w.state.inits) i stale) in
        touch-IsRunning (record w { waiting = rest }) (skip-IsRunning stale) key (new_entry adapter)
          refl there

    published_first :
        (adapter : ℕ)
        → is_current (Dict.get key w.state.inits) i ≡ true
        → IsRunning (published adapter (Dict.remove key w.state.inits))
    unfolding published
    published_first adapter is_now =
        let now : Dict.get key w.state.inits ≡ some i = current→eq _ i is_now in
        record {
          capped = ground (
            arith,
            r.capped,
            length-remove-lt key w.state.inits (has_of_get key w.state.inits now),
            length-set key (new_entry adapter) w.state.entries,
          );
          undrained =
              AllValues-set IsUndrained key (new_entry adapter) w.state.entries refl r.undrained;
          current = λ k j g. (let (a, b, c, d) = other_current now k j g in (a, b, d));
          listed =
              All-map rest
                (λ c g. record {
                  owned = g.owned;
                  old = g.old;
                  covered = ground (
                    arith,
                    g.covered,
                    get-remove key c.0 w.state.inits,
                    has-set key c.0 (new_entry adapter) w.state.entries,
                  );
                })
                parts.1;
        }

    -- The adapter is written under its key, over the one that another waiter may have written.
    pub publish-IsRunning :
        (adapter : ℕ)
        → IsRunning (record w { state = publish w.state key i adapter; waiting = rest })
    unfolding publish published
    publish-IsRunning adapter = elim (Bool-cases (is_current (Dict.get key w.state.inits) i)) [
      | inl is_now ↦ rw is_now (published_first adapter is_now)
      | inr stale ↦ rw stale (published_again adapter stale)
    ]
