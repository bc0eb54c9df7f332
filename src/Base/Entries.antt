-- ===== src/Base/Entries.antt =====
-- Predicates on the items of a dictionary, key and value together.
use mathlib.Core.Path.{◌≡◌, subst, sym}
use mathlib.Core.Logic.{inl, inr}
use mathlib.Core.Bool.{Bool}
use mathlib.Core.List.{List, [], ◌∷◌}
use mathlib.Core.Option.{some}
use package.ezsql.Base.Tests.{Comparable, ◌==◌, Bool-cases}
use package.ezsql.Base.Lists.{All, select}
use package.ezsql.Base.Dict
use package.ezsql.Base.Dict.{Dict}

module _ {ℓ κ μ} {K : Type ℓ} {V : Type κ} ⦃e : Comparable K⦄ (P : K × V → Type μ) where
  pub All-set : (k : K) (v : V) (d : Dict K V) → P (k, v) → All P d → All P (Dict.set k v d)
  unfolding Dict.set
  All-set k v [] new h = (new, tt)
  All-set k v ((j, w) ∷ d) new h = elim (Bool-cases (j == k)) [
    | inl same ↦ rw same (subst (λ n. P (n, v)) (sym ((e.decides j k).0 same)) new, h.1)
    | inr other ↦ rw other (h.0, All-set k v d new h.1)
  ]

  pub All-get : (k : K) (d : Dict K V) {v : V} → All P d → Dict.get k d ≡ some v → P (k, v)
  unfolding Dict.get
  All-get k [] h found = absurd (cc found)
  All-get k ((j, w) ∷ d) {v} h found = elim (Bool-cases (j == k)) [
    | inl same ↦
        (let value : w ≡ v = cc (rw same at found) in
          subst (λ n. P (n, v)) ((e.decides j k).0 same) (subst (λ x. P (j, x)) value h.0))
    | inr other ↦ All-get k d h.1 (rw other at found)
  ]

  pub All-remove : (k : K) (d : Dict K V) → All P d → All P (Dict.remove k d)
  unfolding Dict.remove
  All-remove k [] h = tt
  All-remove k ((j, w) ∷ d) h = elim (Bool-cases (j == k)) [
    | inl same ↦ rw same (All-remove k d h.1)
    | inr other ↦ rw other (h.0, All-remove k d h.1)
  ]

module _ {ℓ κ} {A : Type ℓ} (P : A → Type κ) where
  pub All-select : (p : A → Bool) (l : List A) → All P l → All P (select p l)
  All-select p [] h = tt
  All-select p (x ∷ l) h = elim (Bool-cases (p x)) [
    | inl keep ↦ rw keep (h.0, All-select p l h.1)
    | inr drop ↦ rw drop (All-select p l h.1)
  ]
