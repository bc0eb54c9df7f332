-- ===== src/Base/Dict.antt =====
-- Python's `dict`: its items in insertion order, each key once. A write to a key that is there
-- keeps its place; `d.pop(k, None)` drops it.
use Prim.Native.Nat.{◌+◌, ◌≤◌}
use mathlib.Core.Path.{◌≡◌, refl, subst}
use mathlib.Core.Logic.{◌↔◌, inl, inr}
use mathlib.Core.Bool.{Bool, true, false, not, ◌||◌, ◌&&◌}
use mathlib.Core.List.{List, [], ◌∷◌}
use mathlib.Core.Option.{Option, none, some}
use native.Mathlib.Omega.{arith}
use package.ezsql.Base.Tests.{Comparable, ◌==◌, if◌then◌else◌, Bool-cases}
use package.ezsql.Base.Lists.{length, All}

abbrev pub Dict {ℓ κ} : Type ℓ → Type κ → Type (ℓ ⊔ κ)
Dict K V = List (K × V)

module _ {ℓ κ} {K : Type ℓ} {V : Type κ} ⦃e : Comparable K⦄ where
  -- `d.get(k)`
  unfoldable pub get : K → Dict K V → Option V
  get k [] = none
  get k ((j, v) ∷ d) = if j == k then some v else get k d

  -- `d[k] = v`
  unfoldable pub set : K → V → Dict K V → Dict K V
  set k v [] = (k, v) ∷ []
  set k v ((j, w) ∷ d) = if j == k then (j, v) ∷ d else (j, w) ∷ set k v d

  -- `d.pop(k, None)`
  unfoldable pub remove : K → Dict K V → Dict K V
  remove k [] = []
  remove k ((j, w) ∷ d) = if j == k then remove k d else (j, w) ∷ remove k d

  -- `k in d`
  unfoldable pub has : K → Dict K V → Bool
  has k [] = false
  has k ((j, v) ∷ d) = if j == k then true else has k d

  pub get-set :
      (k j : K) (v : V) (d : Dict K V) → get j (set k v d) ≡ (if k == j then some v else get j d)
  unfolding get set
  get-set k j v [] = ground arith
  get-set k j v ((i, w) ∷ d) =
      ground (arith, e.decides k j, e.decides i k, e.decides i j, get-set k j v d)

  pub get-set_self : (k : K) (v : V) (d : Dict K V) → get k (set k v d) ≡ some v
  get-set_self k v d = rw (get-set, (e.decides k k).1 refl)

  pub get-remove :
      (k j : K) (d : Dict K V) → get j (remove k d) ≡ (if k == j then none else get j d)
  unfolding get remove
  get-remove k j [] = ground arith
  get-remove k j ((i, w) ∷ d) =
      ground (arith, e.decides k j, e.decides i k, e.decides i j, get-remove k j d)

  pub has-get : (k : K) (d : Dict K V) → (has k d ≡ false) ↔ (get k d ≡ none)
  unfolding get has
  has-get k [] = ground arith
  has-get k ((i, w) ∷ d) = ground (arith, has-get k d)

  pub has_of_get : (k : K) (d : Dict K V) {v : V} → get k d ≡ some v → has k d ≡ true
  has_of_get k d h = ground (arith, has-get k d)

  pub length-set :
      (k : K) (v : V) (d : Dict K V)
      → length (set k v d) ≡ (if has k d then length d else length d + 1)
  unfolding set has
  length-set k v [] = ground arith
  length-set k v ((i, w) ∷ d) = ground (arith, length-set k v d)

  pub length-remove-le : (k : K) (d : Dict K V) → length (remove k d) ≤ length d
  unfolding remove
  length-remove-le k [] = omega arith
  length-remove-le k ((i, w) ∷ d) = ground (arith, length-remove-le k d)

  pub length-remove-lt :
      (k : K) (d : Dict K V) → has k d ≡ true → length (remove k d) + 1 ≤ length d
  unfolding remove has
  length-remove-lt k [] h = ground arith
  length-remove-lt k ((i, w) ∷ d) h = ground (arith, length-remove-le k d, length-remove-lt k d)

  pub has-set : (k j : K) (v : V) (d : Dict K V) → has j (set k v d) ≡ (k == j || has j d)
  unfolding has set
  has-set k j v [] = ground arith
  has-set k j v ((i, w) ∷ d) =
      ground (arith, e.decides k j, e.decides i k, e.decides i j, has-set k j v d)

  pub has-remove : (k j : K) (d : Dict K V) → has j (remove k d) ≡ (not (k == j) && has j d)
  unfolding has remove
  has-remove k j [] = ground arith
  has-remove k j ((i, w) ∷ d) =
      ground (arith, e.decides k j, e.decides i k, e.decides i j, has-remove k j d)

  module _ {μ} (P : V → Type μ) where
    -- Every value.
    abbrev pub AllValues : Dict K V → Type μ
    AllValues = All (λ kv. P kv.1)

    pub AllValues-set : (k : K) (v : V) (d : Dict K V) → P v → AllValues d → AllValues (set k v d)
    unfolding set
    AllValues-set k v [] p h = (p, tt)
    AllValues-set k v ((i, w) ∷ d) p h = elim (Bool-cases (i == k)) [
      | inl same ↦ rw (same, All) (p, h.1)
      | inr other ↦ rw (other, All) (h.0, AllValues-set k v d p h.1)
    ]

    pub AllValues-get : (k : K) (d : Dict K V) {v : V} → AllValues d → get k d ≡ some v → P v
    unfolding get
    AllValues-get k [] h g = absurd (cc g)
    AllValues-get k ((i, w) ∷ d) {v} h g = elim (Bool-cases (i == k)) [
      | inl same ↦ (let g' : w ≡ v = cc (rw same at g) in subst P g' h.0)
      | inr other ↦ (let g' : get k d ≡ some v = rw other at g in AllValues-get k d h.1 g')
    ]

pub ruleset dict_laws = (get-set, get-remove, has-set, has-remove)
