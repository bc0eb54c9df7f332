-- ===== src/Lifecycle/World.antt =====
-- The manager among its concurrent calls, as a step relation: each step is one block under the
-- lock. A call that waits is listed with its key and its `_InitState`. How an awaited task ends,
-- and in which order the waiting calls go on, is left open.
use ezsql.Base.{
  ℕ, ◌+◌, ◌≤◌, ◌<◌, ◌≡◌, true, false, some, List, [], ◌∷◌, ◌++◌, arith, if◌then◌else◌, length, All,
  ◌==◌, nat_eq, ◌⊎◌,
}
use ezsql.Base.Dict
use ezsql.Base.Dict.{Dict, AllValues}
use ezsql.Lifecycle.{
  Key, AdapterLifecycle, AdapterEntry, Entered, waits, Ending, init, enter, resume, release, close,
  keyed, key_eq,
}

-- `owner` is the key that an `_InitState` was made for: it is read by no operation.
pub record World : Type 0 where
  pub state : AdapterLifecycle
  pub waiting : List (Key × ℕ)
  pub owner : ℕ → Key

abbrev pub initial : ℕ → Key → World
initial max_adapters key = record { state = init max_adapters; waiting = []; owner = λ i. key }

abbrev pub list_waiting : Key → Entered → List (Key × ℕ) → List (Key × ℕ)
list_waiting key (waits i) l = (key, i) ∷ l
list_waiting key _ l = l

abbrev pub own : (ℕ → Key) → ℕ → Key → ℕ → Key
own f i key j = if i == j then key else f j

-- A call of `acquire` reaches the lock. An address that is fresh is owned by this key from now.
abbrev pub entered : World → Key → World
entered w key = record {
  state = (enter w.state key).0;
  waiting = list_waiting key (enter w.state key).1 w.waiting;
  owner = own w.owner w.state.next_init key;
}

pub data Step (w : World) : World → Type 0 where
  enters : (key : Key) → Step w (entered w key)
  resumes :
      (before after : List (Key × ℕ)) (key : Key) (i : ℕ) (how : Ending)
      → w.waiting ≡ before ++ (key, i) ∷ after
      → Step w (record w { state = (resume w.state key i how).0; waiting = before ++ after })
  releases :
      (key : Key) (adapter : ℕ)
      → Step w (record w { state = (release w.state (keyed key) adapter).0 })
  closes : Step w (record w { state = (close w.state).0 })

pub data Reach (start : World) : World → Type 0 where
  here : Reach start start
  next : {w w' : World} → Reach start w → Step w w' → Reach start w'

-- How many calls wait for an `_InitState`.
abbrev pub count : ℕ → List (Key × ℕ) → ℕ
count i [] = 0
count i ((k, j) ∷ l) = (if j == i then 1 else 0) + count i l

pub count-append : (i : ℕ) (l m : List (Key × ℕ)) → count i (l ++ m) ≡ count i l + count i m
count-append i [] m = omega arith
count-append i ((k, j) ∷ l) m = omega (arith, count-append i l m)

-- What holds of one waiting call: its `_InitState` was made for its key, and is the current one
-- unless an adapter is there.
pub record IsWaiting (w : World) (c : Key × ℕ) : Type 0 where
  pub owned : w.owner c.1 ≡ c.0
  pub old : c.1 < w.state.next_init
  pub covered : (Dict.get c.0 w.state.inits ≡ some c.1) ⊎ (Dict.has c.0 w.state.entries ≡ true)

abbrev pub IsUndrained : AdapterEntry → Type 0
IsUndrained e = e.draining ≡ false

-- The invariant of a manager that is not shut down.
pub record IsRunning (w : World) : Type 0 where
  pub capped : length w.state.entries + length w.state.inits ≤ w.state.max_adapters
  pub undrained : AllValues IsUndrained w.state.entries
  pub current :
      (k : Key) (i : ℕ)
      → Dict.get k w.state.inits ≡ some i
      → (w.owner i ≡ k) × (i < w.state.next_init) × (w.state.waiters i ≡ count i w.waiting)
  pub listed : All (IsWaiting w) w.waiting

abbrev pub Inv : World → Type 0
Inv w = w.state.closed ≡ false → IsRunning w
