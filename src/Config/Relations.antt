-- ===== src/Config/Relations.antt =====
-- What `_validate_relational` makes of the fields that it relates (config.py).
use ezsql.Base.{String, ◌==◌, string_eq, if◌then◌else◌, ◌≡◌, ◌∙◌, arith}
use ezsql.Base.Dict
use ezsql.Base.Dict.{Dict}
use ezsql.Base.Int.{ℤ, ◌≤ℤ◌, min_ℤ}
use ezsql.Config.Validate.{number, cap, validate_relational}

number-set :
    (a name : String) (v : ℤ) (d : Dict String ℤ)
    → number name (Dict.set a v d) ≡ (if a == name then v else number name d)
unfolding number
number-set a name v d = ground (arith, Dict.get-set a name v d)

number-cap :
    (a b name : String) (d : Dict String ℤ)
    → number name (cap a b d)
      ≡ (if a == name then min_ℤ (number a d) (number b d) else number name d)
unfolding cap
number-cap a b name d = ground (arith, number-set a name (number b d) d, string_eq.decides a name)

-- The names, so that a statement can be read.
abbrev pub pool_min : String
pool_min = "db_pool_min_size"

abbrev pub pool_max : String
pool_max = "db_pool_max_size"

abbrev pub lock : String
lock = "explain_lock_timeout_seconds"

abbrev pub statement : String
statement = "explain_statement_timeout_seconds"

abbrev pub connect : String
connect = "db_connect_timeout_seconds"

abbrev pub acquire : String
acquire = "db_acquire_timeout_seconds"

abbrev pub total : String
total = "explain_total_timeout_seconds"

abbrev pub enrichment : String
enrichment = "runtime_enrichment_timeout_seconds"

-- Each related field is cut down to the one above it, as that is before any cut.
abbrev pub CutDown : Dict String ℤ → Dict String ℤ → Type 0
CutDown d d' =
    (number pool_min d' ≡ min_ℤ (number pool_min d) (number pool_max d))
    × (number lock d' ≡ min_ℤ (number lock d) (number statement d))
    × (number connect d' ≡ min_ℤ (number connect d) (number total d))
    × (number acquire d' ≡ min_ℤ (number acquire d) (number total d))
    × (number statement d' ≡ min_ℤ (number statement d) (number total d))
    × (number total d' ≡ min_ℤ (number total d) (number enrichment d))
    × (number pool_max d' ≡ number pool_max d)
    × (number enrichment d' ≡ number enrichment d)

-- Validation cuts each related field down to the given value of the field above it, also where
-- that field is itself cut down in a later step.
pub relational_exact : (d : Dict String ℤ) → CutDown d (validate_relational d)
unfolding validate_relational
relational_exact d = (
  simp number-cap,
  simp number-cap,
  simp number-cap,
  simp number-cap,
  simp number-cap,
  simp number-cap,
  simp number-cap,
  simp number-cap,
)

-- The six relations of the doc.
abbrev pub IsRelated : Dict String ℤ → Type 0
IsRelated d =
    (number pool_min d ≤ℤ number pool_max d)
    × (number lock d ≤ℤ number statement d)
    × (number connect d ≤ℤ number total d)
    × (number acquire d ≤ℤ number total d)
    × (number statement d ≤ℤ number total d)
    × (number total d ≤ℤ number enrichment d)

min_below : (a b : ℤ) → min_ℤ a b ≤ℤ b
min_below a b = ground arith

min_eq : (a b : ℤ) → a ≤ℤ b → min_ℤ a b ≡ a
min_eq a b h = ground arith

capped : (a b : ℤ) {a' b' : ℤ} → a' ≡ min_ℤ a b → b' ≡ b → a' ≤ℤ b'
capped a b p q = rw (p, q) (min_below a b)

-- Where the given statement timeout is at most the total one and that at most the enrichment one,
-- all six relations hold after validation.
pub relational_holds :
    (d : Dict String ℤ)
    → number statement d ≤ℤ number total d
    → number total d ≤ℤ number enrichment d
    → IsRelated (validate_relational d)
relational_holds d s t =
    let (e0, e1, e2, e3, e4, e5, e6, e7) = relational_exact d in
    let s' = e4 ∙ min_eq (number statement d) (number total d) s in
    let t' = e5 ∙ min_eq (number total d) (number enrichment d) t in
    (
      capped (number pool_min d) (number pool_max d) e0 e6,
      capped (number lock d) (number statement d) e1 s',
      capped (number connect d) (number total d) e2 t',
      capped (number acquire d) (number total d) e3 t',
      capped (number statement d) (number total d) e4 t',
      capped (number total d) (number enrichment d) e5 e7,
    )
