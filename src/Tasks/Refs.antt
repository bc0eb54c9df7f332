-- ===== src/Tasks/Refs.antt =====
-- What a task keeps between calls (tasks/registry.py).
use ezsql.Base.{
  ℕ, String, true, false, Option, none, some, List, [], ◌∷◌, ◌++◌, ◌==◌, string_eq, ◌≡◌, refl,
  subst, arith, inl, inr, Bool-cases, Option-cases,
}
use ezsql.Base.Dict
use ezsql.Base.Dict.{Dict}
use ezsql.Tasks.{
  ArtifactType, TaskRef, TaskState, TaskRegistry, is_expired, expire, created, or_default, vivify,
  get_or_create, has_ref, with_ref, add_ref,
}

-- Nothing that is left has expired.
expire-All :
    (now : ℕ) (d : Dict String TaskState)
    → Dict.AllValues (λ s. is_expired now s ≡ false) (expire now d)
unfolding expire
expire-All now [] = tt
expire-All now ((id, s) ∷ d) = elim (Bool-cases (is_expired now s)) [
  | inl old ↦ rw old (expire-All now d)
  | inr live ↦ rw live (live, expire-All now d)
]

has_ref-append :
    (k : String) (t : ArtifactType) (refs : List TaskRef)
    → has_ref k (refs ++ record { cache_key = k; artifact_type = t } ∷ []) ≡ true
unfolding has_ref
has_ref-append k t [] = ground (arith, string_eq.decides k k)
has_ref-append k t (r ∷ refs) = ground (arith, has_ref-append k t refs)

with_ref-has :
    (k : String) (t : ArtifactType) (refs : List TaskRef) → has_ref k (with_ref k t refs) ≡ true
unfolding with_ref
with_ref-has k t refs = elim (Bool-cases (has_ref k refs)) [
  | inl known ↦ rw (known, known) refl
  | inr new ↦ rw new (has_ref-append k t refs)
]

-- No two references have one key.
abbrev pub AreOnce : List TaskRef → Type 0
AreOnce [] = Unit
AreOnce (r ∷ refs) = (has_ref r.cache_key refs ≡ false) × AreOnce refs

has_ref_append-false :
    (j k : String) (t : ArtifactType) (refs : List TaskRef)
    → has_ref j refs ≡ false
    → (k == j) ≡ false
    → has_ref j (refs ++ record { cache_key = k; artifact_type = t } ∷ []) ≡ false
unfolding has_ref
has_ref_append-false j k t [] h apart = ground arith
has_ref_append-false j k t (r ∷ refs) h apart = ground (arith, has_ref_append-false j k t refs)

append-AreOnce :
    (k : String) (t : ArtifactType) (refs : List TaskRef)
    → has_ref k refs ≡ false
    → AreOnce refs
    → AreOnce (refs ++ record { cache_key = k; artifact_type = t } ∷ [])
unfolding has_ref
append-AreOnce k t [] h once = (refl, tt)
append-AreOnce k t (r ∷ refs) h once = elim (Bool-cases (r.cache_key == k)) [
  | inl same ↦ absurd (cc (rw same at h))
  | inr other ↦
      (let rest : has_ref k refs ≡ false = rw other at h in
        let apart : (k == r.cache_key) ≡ false =
          ground (arith, string_eq.decides k r.cache_key, string_eq.decides r.cache_key k) in
        (
          has_ref_append-false r.cache_key k t refs once.0 apart,
          append-AreOnce k t refs rest once.1,
        ))
]

with_ref-AreOnce :
    (k : String) (t : ArtifactType) (refs : List TaskRef)
    → AreOnce refs
    → AreOnce (with_ref k t refs)
unfolding with_ref
with_ref-AreOnce k t refs once = elim (Bool-cases (has_ref k refs)) [
  | inl known ↦ rw known once
  | inr new ↦ rw new (append-AreOnce k t refs new once)
]

get-expire :
    (now : ℕ) (id : String) (d : Dict String TaskState) {s : TaskState}
    → Dict.get id d ≡ some s
    → is_expired now s ≡ false
    → Dict.get id (expire now d) ≡ some s
unfolding expire Dict.get
get-expire now id [] h live = absurd (cc h)
get-expire now id ((j, t) ∷ d) {s} h live = elim (Bool-cases (j == id)) [
  | inl same ↦
      (let first : t ≡ s = cc (rw same at h) in
        let kept : is_expired now t ≡ false = cc (first, live) in rw (kept, same, first) refl)
  | inr other ↦
      (let rest : Dict.get id d ≡ some s = rw other at h in
        elim (Bool-cases (is_expired now t)) [
          | inl old ↦ rw old (get-expire now id d rest live)
          | inr kept ↦ rw (kept, other) (get-expire now id d rest live)
        ])
]

get_or_create_lem :
    (r : TaskRegistry) (id : String) (ttl : Option ℕ) (now : ℕ) {s : TaskState}
    → Dict.get id (expire now r.tasks) ≡ some s
    → (get_or_create r id ttl now).1 ≡ s
unfolding get_or_create vivify
get_or_create_lem r id ttl now h = rw h refl

-- The state that `add_ref` puts back.
abbrev updated : TaskRegistry → String → String → ArtifactType → ℕ → TaskState
updated r id key t now =
    let state = (get_or_create r id none now).1 in record state { refs = with_ref key t state.refs }

add_ref_lem :
    (r : TaskRegistry) (id key : String) (t : ArtifactType) (now : ℕ)
    → Dict.get id (add_ref r id key t now).tasks ≡ some (updated r id key t now)
unfolding add_ref
add_ref_lem r id key t now =
    Dict.get-set_self id (updated r id key t now) (get_or_create r id none now).0.tasks

-- What `add_ref` left under the task's name has the reference, and until it expires it is what
-- the next `get_or_create` gives, whatever time to live is asked for.
pub ref_survives :
    (r : TaskRegistry) (task_id cache_key : String) (artifact_type : ArtifactType) (now later : ℕ)
    (ttl : Option ℕ) {s : TaskState}
    → Dict.get task_id (add_ref r task_id cache_key artifact_type now).tasks ≡ some s
    → is_expired later s ≡ false
    → ((get_or_create (add_ref r task_id cache_key artifact_type now) task_id ttl later).1 ≡ s)
      × (has_ref cache_key s.refs ≡ true)
ref_survives r task_id cache_key artifact_type now later ttl {s} h live =
    let same : updated r task_id cache_key artifact_type now ≡ s =
      cc (h, add_ref_lem r task_id cache_key artifact_type now) in
    let after = add_ref r task_id cache_key artifact_type now in
    (
      get_or_create_lem after task_id ttl later (get-expire later task_id after.tasks h live),
      subst (λ x. has_ref cache_key x.refs ≡ true) same
          (with_ref-has cache_key artifact_type (get_or_create r task_id none now).1.refs),
    )

-- No task has two references with one key.
abbrev pub RefsAreOnce : TaskRegistry → Type 0
RefsAreOnce r = Dict.AllValues (λ s. AreOnce s.refs) r.tasks

expire-RefsAreOnce :
    (now : ℕ) (d : Dict String TaskState)
    → Dict.AllValues (λ s. AreOnce s.refs) d
    → Dict.AllValues (λ s. AreOnce s.refs) (expire now d)
unfolding expire
expire-RefsAreOnce now [] h = tt
expire-RefsAreOnce now ((id, s) ∷ d) h = elim (Bool-cases (is_expired now s)) [
  | inl old ↦ rw old (expire-RefsAreOnce now d h.1)
  | inr live ↦ rw live (h.0, expire-RefsAreOnce now d h.1)
]

pub get_or_create-RefsAreOnce :
    (r : TaskRegistry) (id : String) (ttl : Option ℕ) (now : ℕ)
    → RefsAreOnce r
    → RefsAreOnce (get_or_create r id ttl now).0 × AreOnce (get_or_create r id ttl now).1.refs
unfolding get_or_create vivify
get_or_create-RefsAreOnce r id ttl now h =
    let kept = expire-RefsAreOnce now r.tasks h in
    elim (Option-cases (Dict.get id (expire now r.tasks))) [
      | inl missing ↦ rw missing (
        Dict.AllValues-set (λ s. AreOnce s.refs) id (created id now (or_default ttl r.default_ttl))
            (expire now r.tasks) tt kept,
        tt,
      )
      | inr found ↦
          rw (found.1)
            (kept, Dict.AllValues-get (λ s. AreOnce s.refs) id (expire now r.tasks) kept found.1)
    ]

-- Where no task has two references with one key, none has after `add_ref`.
pub add_ref-RefsAreOnce :
    (r : TaskRegistry) (task_id cache_key : String) (artifact_type : ArtifactType) (now : ℕ)
    → RefsAreOnce r
    → RefsAreOnce (add_ref r task_id cache_key artifact_type now)
unfolding add_ref
add_ref-RefsAreOnce r task_id cache_key artifact_type now h =
    let (tasks, state) = get_or_create-RefsAreOnce r task_id none now h in
    Dict.AllValues-set (λ s. AreOnce s.refs) task_id (updated r task_id cache_key artifact_type now)
      (get_or_create r task_id none now).0.tasks
      (with_ref-AreOnce cache_key artifact_type (get_or_create r task_id none now).1.refs state)
      tasks
