-- ===== src/Lifecycle/Entering.antt =====
-- Each branch of `enter` keeps the invariant.
use ezsql.Base.{
  ℕ, ◌+◌, ◌≤◌, ◌<◌, ◌≡◌, ◌≢◌, refl, true, false, Option, none, some, List, [], ◌∷◌, arith, length,
  All, All-map, ◌==◌, nat_eq, ◌⊎◌, inl, inr, Bool-cases, leb,
}
use ezsql.Base.Dict
use ezsql.Base.Dict.{
  Dict, AllValues, AllValues-set, AllValues-get, get-set, get-remove, has-set, has-remove, has-get,
  length-set, length-remove-le, length-remove-lt,
}
use ezsql.Lifecycle.{Key, AdapterEntry, key_eq, update, live, undrained, is_current}
use ezsql.Lifecycle.World.{World, own, count, IsWaiting, IsRunning, IsUndrained}

pub undrained-length :
    (d : Dict Key AdapterEntry) → AllValues IsUndrained d → undrained d ≡ length d
unfolding undrained
undrained-length [] h = refl
undrained-length ((k, e) ∷ d) h = rw h.0 (omega (arith, undrained-length d h.1))

-- No call waits for an address that is fresh.
pub count_fresh :
    (w : World) (l : List (Key × ℕ)) (i : ℕ)
    → w.state.next_init ≤ i
    → All (IsWaiting w) l
    → count i l ≡ 0
count_fresh w [] i n h = refl
count_fresh w ((k, j) ∷ l) i n h = ground (arith, count_fresh w l i n h.1, h.0.old)

-- Where no call waits for an address.
pub count_zero : (i : ℕ) (l : List (Key × ℕ)) → count i l ≡ 0 → All (λ c. c.1 ≢ i) l
count_zero i [] h = tt
count_zero i ((k, j) ∷ l) h = (ground arith, count_zero i l (omega arith))

pub current→eq : (o : Option ℕ) (i : ℕ) → is_current o i ≡ true → o ≡ some i
current→eq o i h = ground arith

pub not-current : (o : Option ℕ) (i : ℕ) → is_current o i ≡ false → o ≢ some i
not-current o i h = ground arith

module _ (w : World) (r : IsRunning w) where
  -- A fresh address gets an owner.
  pub own-IsRunning :
      (key : Key) → IsRunning (record w { owner = own w.owner w.state.next_init key })
  own-IsRunning key = record {
    capped = r.capped;
    undrained = r.undrained;
    current = λ k i h. let (a, b, c) = r.current k i h in (ground arith, b, c);
    listed =
        All-map w.waiting
          (λ c h. record {
            owned = ground (arith, h.owned, h.old);
            old = h.old;
            covered = h.covered;
          })
          r.listed;
  }

  -- An entry is written where one was.
  pub touch-IsRunning :
      (key : Key) (e : AdapterEntry)
      → e.draining ≡ false
      → Dict.has key w.state.entries ≡ true
      → IsRunning (record w { state = record w.state { entries = Dict.set key e w.state.entries } })
  touch-IsRunning key e d h = record {
    capped = ground (arith, r.capped, length-set key e w.state.entries);
    undrained = AllValues-set IsUndrained key e _ d r.undrained;
    current = r.current;
    listed =
        All-map w.waiting
          (λ c g. record {
            owned = g.owned;
            old = g.old;
            covered = ground (arith, g.covered, has-set key c.0 e w.state.entries, h);
          })
          r.listed;
  }

  module _ (key : Key) where
    -- One more call waits for the current address of its key.
    pub join-IsRunning :
        (i : ℕ)
        → Dict.get key w.state.inits ≡ some i
        → IsRunning (record w {
          state = record w.state { waiters = update w.state.waiters i (w.state.waiters i + 1) };
          waiting = (key, i) ∷ w.waiting;
        })
    join-IsRunning i h = record {
      capped = r.capped;
      undrained = r.undrained;
      current = λ k j g. let (a, b, c) = r.current k j g in (a, b, ground arith);
      listed = (
        record { owned = (r.current key i h).0; old = (r.current key i h).1; covered = inl h },
        All-map w.waiting (λ c g. record { owned = g.owned; old = g.old; covered = g.covered })
            r.listed,
      );
    }

    abbrev pub started : World
    started = record {
      state = record w.state {
        inits = Dict.set key w.state.next_init w.state.inits;
        waiters = update w.state.waiters w.state.next_init 1;
        next_init = w.state.next_init + 1;
      };
      waiting = (key, w.state.next_init) ∷ w.waiting;
      owner = own w.owner w.state.next_init key;
    }

    pub key_refl : (key == key) ≡ true
    key_refl = (key_eq.decides key key).1 refl

    started_current :
        Dict.get key w.state.inits ≡ none
        → (k : Key) (j : ℕ) → Dict.get k started.state.inits ≡ some j
        → ((key == k) ≡ true) ⊎ ((key == k) ≡ false)
        → (started.owner j ≡ k)
          × (j < started.state.next_init)
          × (started.state.waiters j ≡ count j started.waiting)
    started_current absent k j g (inl same) = ground (
      arith,
      g,
      get-set key k w.state.next_init w.state.inits,
      key_eq.decides key k,
      count_fresh w w.waiting w.state.next_init (omega arith) r.listed,
    )
    started_current absent k j g (inr other) =
        let g' : Dict.get k w.state.inits ≡ some j =
          ground (arith, g, get-set key k w.state.next_init w.state.inits) in
        let (a, b, c) = r.current k j g' in (ground arith, omega arith, ground arith)

    -- A slot is reserved under the cap.
    pub start-IsRunning :
        Dict.get key w.state.inits ≡ none
        → leb w.state.max_adapters (live w.state) ≡ false
        → IsRunning started
    start-IsRunning absent room = record {
      capped = ground (
        arith,
        undrained-length w.state.entries r.undrained,
        length-set key w.state.next_init w.state.inits,
        (has-get key w.state.inits).1 absent,
      );
      undrained = r.undrained;
      current = λ k j g. started_current absent k j g (Bool-cases (key == k));
      listed = (
        record {
          owned = ground arith;
          old = omega arith;
          covered = inl (rw get-set (rw key_refl));
        },
        All-map w.waiting
            (λ c g. record {
              owned = ground (arith, g.owned, g.old);
              old = omega (arith, g.old);
              covered = ground (
                arith,
                g.covered,
                get-set key c.0 w.state.next_init w.state.inits,
                key_eq.decides key c.0,
              );
            })
            r.listed,
      );
    }
