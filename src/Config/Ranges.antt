-- ===== src/Config/Ranges.antt =====
-- Values within their ranges, and that the relations keep them there (config.py).
use ezsql.Base.{
  ℕ, ◌≤◌, String, true, Option, none, some, List, [], ◌∷◌, ◌==◌, string_eq, ◌≡◌, refl, subst, arith,
  inl, inr, Bool-cases, All, All-map,
}
use ezsql.Base.Entries.{All-set}
use ezsql.Base.Entries.{All-set}
use ezsql.Base.Dict
use ezsql.Base.Dict.{Dict}
use ezsql.Base.Int.{ℤ, pos, ltb_ℤ, ◌≤ℤ◌}
use ezsql.Config.Fields.{clamp_ranges, number_defaults}
use ezsql.Config.Validate.{number, cap, validate_relational, into, clamp_numeric}

-- A value within a range, where there is one.
abbrev pub IsWithin : Option (ℕ × ℕ) → ℤ → Type 0
IsWithin none v = Unit
IsWithin (some (lo, hi)) v = (pos lo ≤ℤ v) × (v ≤ℤ pos hi)

-- Every numeric field is within its range.
abbrev pub AreClamped : Dict String ℤ → Type 0
AreClamped = All (λ kv. IsWithin (Dict.get kv.0 clamp_ranges) kv.1)

IsOrdered : Option (ℕ × ℕ) → Type 0
IsOrdered none = Unit
IsOrdered (some (lo, hi)) = lo ≤ hi

into-IsWithin : (range : Option (ℕ × ℕ)) (v : ℤ) → IsOrdered range → IsWithin range (into range v)
unfolding IsOrdered
into-IsWithin none v h = tt
into-IsWithin (some (lo, hi)) v h = (ground arith, ground arith)

abbrev AreOrdered : Dict String (ℕ × ℕ) → Type 0
AreOrdered = Dict.AllValues (λ r. r.0 ≤ r.1)

IsOrdered-at :
    (ranges : Dict String (ℕ × ℕ)) (name : String)
    → AreOrdered ranges
    → IsOrdered (Dict.get name ranges)
unfolding Dict.get IsOrdered
IsOrdered-at [] name h = tt
IsOrdered-at ((k, r) ∷ ranges) name h = elim (Bool-cases (k == name)) [
  | inl same ↦ rw same h.0
  | inr other ↦ rw other (IsOrdered-at ranges name h.1)
]

ranges_ordered : AreOrdered clamp_ranges
ranges_ordered = omega arith

pub clamp-IsWithin :
    (name : String) (v : ℤ) → IsWithin (Dict.get name clamp_ranges) (clamp_numeric name v)
unfolding clamp_numeric
clamp-IsWithin name v =
    into-IsWithin (Dict.get name clamp_ranges) v (IsOrdered-at clamp_ranges name ranges_ordered)

pub defaults-AreClamped : AreClamped number_defaults
unfolding Dict.get
defaults-AreClamped = omega arith

number-IsWithin :
    (name : String) (d : Dict String ℤ)
    → AreClamped d
    → Dict.has name d ≡ true
    → IsWithin (Dict.get name clamp_ranges) (number name d)
unfolding number Dict.get Dict.has
number-IsWithin name [] h there = absurd (cc there)
number-IsWithin name ((k, v) ∷ d) h there = elim (Bool-cases (k == name)) [
  | inl same ↦
      rw (number, same)
        (subst (λ n. IsWithin (Dict.get n clamp_ranges) v) ((string_eq.decides k name).0 same) h.0)
  | inr other ↦ rw (number, other) (number-IsWithin name d h.1 (rw other at there))
]

lower_IsWithin :
    (lo hi lo' hi' : ℕ) (v w : ℤ)
    → lo ≤ lo'
    → IsWithin (some (lo, hi)) w
    → IsWithin (some (lo', hi')) v
    → ltb_ℤ v w ≡ true
    → IsWithin (some (lo, hi)) v
lower_IsWithin lo hi lo' hi' v w le hw hv lt = (ground arith, ground arith)

has-cap :
    (a b name : String) (d : Dict String ℤ)
    → Dict.has name d ≡ true
    → Dict.has name (cap a b d) ≡ true
unfolding cap
has-cap a b name d h = ground (arith, Dict.has-set a name (number b d) d)

module _ (a b : String) {lo hi lo' hi' : ℕ} (of_a : Dict.get a clamp_ranges ≡ some (lo, hi))
    (of_b : Dict.get b clamp_ranges ≡ some (lo', hi')) (le : lo ≤ lo') where
  cap-AreClamped :
      (d : Dict String ℤ)
      → AreClamped d
      → Dict.has a d ≡ true
      → Dict.has b d ≡ true
      → AreClamped (cap a b d)
  unfolding cap
  cap-AreClamped d h has_a has_b = elim (Bool-cases (ltb_ℤ (number b d) (number a d))) [
    | inr kept ↦ rw kept h
    | inl cut ↦
        (let within_a : IsWithin (some (lo, hi)) (number a d) =
            rw of_a at (number-IsWithin a d h has_a) in
          let within_b : IsWithin (some (lo', hi')) (number b d) =
            rw of_b at (number-IsWithin b d h has_b) in
          rw cut (
            All-set (λ kv. IsWithin (Dict.get kv.0 clamp_ranges) kv.1) a (number b d) d
              (rw of_a
                (lower_IsWithin lo hi lo' hi' (number b d) (number a d) le within_a within_b cut))
              h))
  ]

abbrev pub related_names : List String
related_names =
    "db_pool_min_size" ∷ "db_pool_max_size" ∷ "explain_lock_timeout_seconds"
    ∷ "explain_statement_timeout_seconds" ∷ "db_connect_timeout_seconds"
    ∷ "db_acquire_timeout_seconds" ∷ "explain_total_timeout_seconds"
    ∷ "runtime_enrichment_timeout_seconds" ∷ []

-- The related fields are there, and every field is within its range.
abbrev pub IsSound : Dict String ℤ → Type 0
IsSound d = AreClamped d × All (λ name. Dict.has name d ≡ true) related_names

cap-IsSound :
    (a b : String) {lo hi lo' hi' : ℕ}
    → Dict.get a clamp_ranges ≡ some (lo, hi)
    → Dict.get b clamp_ranges ≡ some (lo', hi')
    → lo ≤ lo'
    → (d : Dict String ℤ) → Dict.has a d ≡ true
    → Dict.has b d ≡ true
    → IsSound d
    → IsSound (cap a b d)
cap-IsSound a b of_a of_b le d has_a has_b h = (
  cap-AreClamped a b of_a of_b le d h.0 has_a has_b,
  All-map related_names (λ name. has-cap a b name d) h.1,
)

pub relational-IsSound : (d : Dict String ℤ) → IsSound d → IsSound (validate_relational d)
unfolding validate_relational Dict.get
relational-IsSound d h0 =
    let h1 =
      cap-IsSound "db_pool_min_size" "db_pool_max_size" refl refl (omega arith) _ h0.1.0 h0.1.1.0
        h0 in
    let h2 =
      cap-IsSound "explain_lock_timeout_seconds" "explain_statement_timeout_seconds" refl refl
        (omega arith) _ h1.1.1.1.0 h1.1.1.1.1.0 h1 in
    let h3 =
      cap-IsSound "db_connect_timeout_seconds" "explain_total_timeout_seconds" refl refl
        (omega arith) _ h2.1.1.1.1.1.0 h2.1.1.1.1.1.1.1.0 h2 in
    let h4 =
      cap-IsSound "db_acquire_timeout_seconds" "explain_total_timeout_seconds" refl refl
        (omega arith) _ h3.1.1.1.1.1.1.0 h3.1.1.1.1.1.1.1.0 h3 in
    let h5 =
      cap-IsSound "explain_statement_timeout_seconds" "explain_total_timeout_seconds" refl refl
        (omega arith) _ h4.1.1.1.1.0 h4.1.1.1.1.1.1.1.0 h4 in
    let h6 =
      cap-IsSound "explain_total_timeout_seconds" "runtime_enrichment_timeout_seconds" refl refl
        (omega arith) _ h5.1.1.1.1.1.1.1.0 h5.1.1.1.1.1.1.1.1.0 h5 in
    h6
