-- ===== src/Lifecycle/Cap.antt =====
-- The process never has more adapters, open or being opened, than its cap.
use ezsql.Base.{
  ℕ, ◌+◌, ◌-◌, ◌≤◌, ◌≡◌, refl, sym, ◌∙◌, false, none, some, List, ◌∷◌, ◌++◌, arith, if◌then◌else◌,
  length, ◌==◌, nat_eq, inl, inr, Bool-cases, Option-cases, leb,
}
use ezsql.Base.Dict
use ezsql.Base.Dict.{
  Dict, AllValues, AllValues-set, AllValues-get, get-set, get-remove, has-set, has-remove, has-get,
  length-set, length-remove-le, length-remove-lt, has_of_get,
}
use ezsql.Lifecycle.{
  Key, AdapterLifecycle, AdapterEntry, Ending, connected, adapter_error, other_error, cancelled,
  enter, resume, release, close, keyed, key_eq, live, is_current, join, reuse, release_waiter,
  give_back,
}
use ezsql.Lifecycle.World.{
  World, Step, Reach, here, next, enters, resumes, releases, closes, entered, own, IsRunning,
  IsUndrained, Inv, initial, list_waiting,
}
use ezsql.Lifecycle.Entering.{own-IsRunning, touch-IsRunning, join-IsRunning, start-IsRunning}
use ezsql.Lifecycle.Leaving.{skip-IsRunning, leave-IsRunning, drop-IsRunning, publish-IsRunning}

-- `reuse` where the key has no entry.
join_or_start-IsRunning :
    (w : World) (key : Key)
    → IsRunning w
    → let e = join w.state key (Dict.get key w.state.inits) in
      IsRunning (record {
        state = e.0;
        waiting = list_waiting key e.1 w.waiting;
        owner = own w.owner w.state.next_init key;
      })
unfolding join
join_or_start-IsRunning w key r = elim (Option-cases (Dict.get key w.state.inits)) [
  | inl absent ↦
      rw (absent, join)
        (elim (Bool-cases (leb w.state.max_adapters (live w.state))) [
          | inl full ↦ rw full (own-IsRunning w r key)
          | inr room ↦ rw room (start-IsRunning w r key absent room)
        ])
  | inr (i, now) ↦
      rw (now, join)
        (join-IsRunning (record w { owner = own w.owner w.state.next_init key })
          (own-IsRunning w r key) key i now)
]

pub enter_open :
    (s : AdapterLifecycle) (key : Key)
    → s.closed ≡ false
    → enter s key ≡ reuse s key (Dict.get key s.entries)
unfolding enter
enter_open s key h = simp h

reuse-IsRunning :
    (w : World) (key : Key)
    → IsRunning w
    → let e = reuse w.state key (Dict.get key w.state.entries) in
      IsRunning (record {
        state = e.0;
        waiting = list_waiting key e.1 w.waiting;
        owner = own w.owner w.state.next_init key;
      })
unfolding reuse
reuse-IsRunning w key r = elim (Option-cases (Dict.get key w.state.entries)) [
  | inl absent ↦ rw (absent, reuse) (join_or_start-IsRunning w key r)
  | inr (e, there) ↦
      let undrained : e.draining ≡ false =
        AllValues-get IsUndrained key w.state.entries r.undrained there in
      rw (there, reuse)
        (simp undrained (
          touch-IsRunning (record w { owner = own w.owner w.state.next_init key })
            (own-IsRunning w r key) key (record e { leases = e.leases + 1; draining = false }) refl
            (has_of_get key w.state.entries there)))
]

enter-IsRunning :
    (w : World) (key : Key) → w.state.closed ≡ false → IsRunning w → IsRunning (entered w key)
enter-IsRunning w key opened r = rw (enter_open w.state key opened) (reuse-IsRunning w key r)

release_waiter-IsRunning :
    (w : World) (before after : List (Key × ℕ)) (key : Key) (i : ℕ)
    → w.waiting ≡ before ++ (key, i) ∷ after
    → IsRunning w
    → IsRunning (record w { state = (release_waiter w.state key i).0; waiting = before ++ after })
unfolding release_waiter
release_waiter-IsRunning w before after key i split r =
    elim (Bool-cases (is_current (Dict.get key w.state.inits) i)) [
      | inl now ↦ rw now (elim (Bool-cases (leb (w.state.waiters i - 1) 0)) [
        | inl last ↦ rw last (drop-IsRunning w r before after key i split now last)
        | inr more ↦ rw more (leave-IsRunning w r before after key i split now more)
      ])
      | inr stale ↦ rw stale (skip-IsRunning w r before after key i split stale)
    ]

resume-IsRunning :
    (w : World) (before after : List (Key × ℕ)) (key : Key) (i : ℕ) (how : Ending)
    → w.waiting ≡ before ++ (key, i) ∷ after
    → IsRunning w
    → IsRunning (record w { state = (resume w.state key i how).0; waiting = before ++ after })
unfolding resume
resume-IsRunning w before after key i (connected a) split r =
    publish-IsRunning w r before after key i split a
resume-IsRunning w before after key i (adapter_error e) split r =
    release_waiter-IsRunning w before after key i split r
resume-IsRunning w before after key i other_error split r =
    release_waiter-IsRunning w before after key i split r
resume-IsRunning w before after key i cancelled split r =
    release_waiter-IsRunning w before after key i split r

-- No entry is draining, so a lease that is given back leaves the entry where it is.
pub give_back_undrained :
    (s : AdapterLifecycle) (key : Key) (adapter : ℕ) (e : AdapterEntry)
    → e.draining ≡ false
    → give_back s key adapter (some e) ≡ (
        if e.adapter == adapter
        then (
          record s {
            entries = Dict.set key (record e { leases = e.leases - 1; draining = false }) s.entries;
          },
          none,
        )
        else (s, none))
unfolding give_back
give_back_undrained s key adapter e h = simp h

release-IsRunning :
    (w : World) (key : Key) (adapter : ℕ)
    → IsRunning w
    → IsRunning (record w { state = (release w.state (keyed key) adapter).0 })
unfolding release
release-IsRunning w key adapter r = elim (Option-cases (Dict.get key w.state.entries)) [
  | inl absent ↦ rw (absent, give_back) r
  | inr (e, there) ↦
      let undrained : e.draining ≡ false =
        AllValues-get IsUndrained key w.state.entries r.undrained there in
      rw (there, give_back_undrained w.state key adapter e undrained)
        (elim (Bool-cases (e.adapter == adapter)) [
          | inl same ↦ rw same (
              touch-IsRunning w r key (record e { leases = e.leases - 1; draining = false }) refl
                (has_of_get key w.state.entries there))
          | inr other ↦ rw other r
        ])
]

-- What is closed stays closed, and no operation changes the cap.
closed-enter : (s : AdapterLifecycle) (key : Key) → (enter s key).0.closed ≡ s.closed
unfolding enter
closed-enter s key = ground arith

closed-resume :
    (s : AdapterLifecycle) (key : Key) (i : ℕ) (how : Ending)
    → (resume s key i how).0.closed ≡ s.closed
unfolding resume
closed-resume s key i (connected a) = refl
closed-resume s key i _ = ground arith

closed-release :
    (s : AdapterLifecycle) (key : Key) (adapter : ℕ)
    → (release s (keyed key) adapter).0.closed ≡ s.closed
unfolding release
closed-release s key adapter = ground arith

Step-Inv : {w w' : World} → Step w w' → Inv w → Inv w'
unfolding close
Step-Inv {w} (enters key) inv opened =
    let o : w.state.closed ≡ false = sym (closed-enter w.state key) ∙ opened in
    enter-IsRunning w key o (inv o)
Step-Inv {w} (resumes before after key i how split) inv opened =
    let o : w.state.closed ≡ false = sym (closed-resume w.state key i how) ∙ opened in
    resume-IsRunning w before after key i how split (inv o)
Step-Inv {w} (releases key adapter) inv opened =
    let o : w.state.closed ≡ false = sym (closed-release w.state key adapter) ∙ opened in
    release-IsRunning w key adapter (inv o)
Step-Inv closes inv opened = absurd (ground arith)

initial-IsRunning : (n : ℕ) (key : Key) → IsRunning (initial n key)
unfolding Dict.get
initial-IsRunning n key = record {
  capped = omega arith;
  undrained = tt;
  current = λ k i h. absurd (cc h);
  listed = tt;
}

pub Reach-Inv : (n : ℕ) (key : Key) {w : World} → Reach (initial n key) w → Inv w
Reach-Inv n key here = λ _. initial-IsRunning n key
Reach-Inv n key (next r s) = Step-Inv s (Reach-Inv n key r)

max-Step : {w w' : World} → Step w w' → w'.state.max_adapters ≡ w.state.max_adapters
unfolding enter resume release close
max-Step {w} (enters key) = ground arith
max-Step {w} (resumes before after key i (connected a) split) = refl
max-Step {w} (resumes before after key i _ split) = ground arith
max-Step {w} (releases key adapter) = ground arith
max-Step closes = refl

max-Reach : (n : ℕ) (key : Key) {w : World} → Reach (initial n key) w → w.state.max_adapters ≡ n
max-Reach n key here = refl
max-Reach n key (next r s) = max-Step s ∙ max-Reach n key r

-- Whatever the calls, their order and the ends of their waits, a manager that is not shut down
-- has at most `max_adapters` adapters, those that are being opened counted.
pub adapters_capped :
    (n : ℕ) (key : Key) {w : World}
    → Reach (initial n key) w
    → w.state.closed ≡ false
    → length w.state.entries + length w.state.inits ≤ n
adapters_capped n key r opened = omega (arith, (Reach-Inv n key r opened).capped, max-Reach n key r)
