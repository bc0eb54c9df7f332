-- ===== src/Tests/LifecycleTests.antt =====
-- Two calls wait for one adapter; one more call finds the cap reached.
use ezsql.Base.{
  ℕ, suc, ◌+◌, ◌-◌, ◌≤◌, ◌<◌, ◌≡◌, refl, Bool, true, false, Option, none, some, List, [], ◌∷◌,
  length, arith,
}
use mathlib.Core.Option
use ezsql.Base.Dict
use ezsql.Base.Dict.{Dict}
use ezsql.Lifecycle.{
  Key, key_eq, waits, failed, adapter_limit, raised, connected, adapter_error, failure, enter,
  resume, release, close, publish, keyed, acquire, undrained,
}
use ezsql.Lifecycle.World.{World, Reach, here, next, enters, entered, initial}
use ezsql.Lifecycle.Cap.{adapters_capped}
use ezsql.Lifecycle.Leases.{
  release_closes_nothing, enter_shares, publish_resets_leases, publish_after_close,
  failure_not_cached,
}

run : Unit {0}
unfolding enter resume release close acquire undrained Dict.get Dict.set Dict.remove
    ezsql.Base.pair_beq
run = tt

abbrev main_db : Key
main_db = ("/srv/app", "main")

abbrev other_db : Key
other_db = ("/srv/app", "other")

abbrev world₀ : World
world₀ = initial 1 main_db

abbrev world₁ : World
world₁ = entered world₀ main_db

abbrev world₂ : World
world₂ = entered world₁ main_db

reach₂ : Reach world₀ world₂
reach₂ = next (next here (enters main_db)) (enters main_db)

opened₂ : world₂.state.closed ≡ false
unfolding run
opened₂ = refl

second_waits :
    ((enter world₀.state main_db).1 ≡ waits 0) × ((enter world₁.state main_db).1 ≡ waits 0)
unfolding run
second_waits = (refl, refl)

cap_reached : (enter world₂.state other_db).1 ≡ failed (adapter_limit 1)
unfolding run
cap_reached = refl

adapters_capped_example : length world₂.state.entries + length world₂.state.inits ≤ 1
adapters_capped_example = adapters_capped 1 main_db reach₂ opened₂

release_closes_nothing_example : (release world₂.state (keyed main_db) 7).1 ≡ none
release_closes_nothing_example = release_closes_nothing 1 main_db main_db 7 reach₂ opened₂

enter_shares_example :
    let again = enter (enter world₀.state main_db).0 main_db in
    (again.1 ≡ waits 0)
    × (again.0.waiters 0 ≡ (enter world₀.state main_db).0.waiters 0 + 1)
    × (again.0.inits ≡ (enter world₀.state main_db).0.inits)
enter_shares_example = enter_shares world₀.state main_db 0 second_waits.0

publish_resets_leases_example :
    let first = publish world₂.state main_db 0 7 in
    let back = (release first (keyed main_db) 7).0 in
    let second = publish back main_db 0 7 in
    (Option.map (λ e. e.leases) (Dict.get main_db back.entries) ≡ some (world₂.state.waiters 0 - 1))
    × (Option.map (λ e. e.leases) (Dict.get main_db second.entries) ≡ some (world₂.state.waiters 0))
publish_resets_leases_example = publish_resets_leases world₂.state main_db 7 0

publish_after_close_example :
    let shut = (close world₂.state).0 in
    let after = (resume shut main_db 0 (connected 7)).0 in
    (shut.entries ≡ [])
    × (after.closed ≡ true)
    × (Option.map (λ e. e.adapter) (Dict.get main_db after.entries) ≡ some 7)
publish_after_close_example = publish_after_close world₂.state main_db 7 0

failure_not_cached_example :
    ((resume world₁.state main_db 0 (adapter_error (raised "db_connection_failed" "refused"))).1
      ≡ failure (raised "db_connection_failed" "refused"))
    × ((enter
          (resume world₁.state main_db 0
            (adapter_error (raised "db_connection_failed" "refused"))).0
          main_db).1
        ≡ waits 1)
unfolding run
failure_not_cached_example =
    failure_not_cached world₁.state main_db 0 (raised "db_connection_failed" "refused") refl refl
      refl refl (omega arith)
