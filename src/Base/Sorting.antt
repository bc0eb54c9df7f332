-- ===== src/Base/Sorting.antt =====
-- Python's `sorted`: stable, by a test `le` on the elements.
use mathlib.Core.Path.{◌≡◌}
use mathlib.Core.Logic.{inl, inr}
use mathlib.Core.Bool.{Bool, true, false}
use mathlib.Core.List.{List, [], ◌∷◌, Perm}
use mathlib.Core.List.Perm
use Prim.Native.Nat.{ℕ, zero, suc}
use package.ezsql.Base.Tests.{if◌then◌else◌, Bool-cases}
use package.ezsql.Base.Lists.{All, take}

module _ {ℓ} {A : Type ℓ} (le : A → A → Bool) where
  unfoldable pub insert_sorted : A → List A → List A
  insert_sorted x [] = x ∷ []
  insert_sorted x (y ∷ l) = if le x y then x ∷ y ∷ l else y ∷ insert_sorted x l

  unfoldable pub sorted : List A → List A
  unfolding insert_sorted
  sorted [] = []
  sorted (x ∷ l) = insert_sorted x (sorted l)

  abbrev pub AtMostHead : A → List A → Type 0
  AtMostHead x [] = Unit
  AtMostHead x (y ∷ l) = le x y ≡ true

  abbrev pub IsSorted : List A → Type 0
  IsSorted [] = Unit
  IsSorted (x ∷ l) = AtMostHead x l × IsSorted l

  insert-Perm : (x : A) (l : List A) → Perm (x ∷ l) (insert_sorted x l)
  unfolding insert_sorted
  insert-Perm x [] = Perm.refl (x ∷ [])
  insert-Perm x (y ∷ l) = elim (Bool-cases (le x y)) [
    | inl below ↦ rw below (Perm.refl (x ∷ y ∷ l))
    | inr above ↦ rw above (Perm.trans (Perm.swap y x l) (Perm.cons y (insert-Perm x l)))
  ]

  pub sorted-Perm : (l : List A) → Perm l (sorted l)
  unfolding sorted
  sorted-Perm [] = Perm.refl []
  sorted-Perm (x ∷ l) = Perm.trans (Perm.cons x (sorted-Perm l)) (insert-Perm x (sorted l))

  module _ (total : (a b : A) → le a b ≡ false → le b a ≡ true) where
    insert-AtMostHead :
        (y x : A) (l : List A) → le y x ≡ true → AtMostHead y l → AtMostHead y (insert_sorted x l)
    unfolding insert_sorted
    insert-AtMostHead y x [] h head = h
    insert-AtMostHead y x (z ∷ l) h head = elim (Bool-cases (le x z)) [
      | inl below ↦ rw below h
      | inr above ↦ rw above head
    ]

    insert-IsSorted : (x : A) (l : List A) → IsSorted l → IsSorted (insert_sorted x l)
    unfolding insert_sorted
    insert-IsSorted x [] h = (tt, tt)
    insert-IsSorted x (y ∷ l) h = elim (Bool-cases (le x y)) [
      | inl below ↦ rw below (below, h)
      | inr above ↦
          rw above (insert-AtMostHead y x l (total x y above) h.0, insert-IsSorted x l h.1)
    ]

    pub sorted-IsSorted : (l : List A) → IsSorted (sorted l)
    unfolding sorted
    sorted-IsSorted [] = tt
    sorted-IsSorted (x ∷ l) = insert-IsSorted x (sorted l) (sorted-IsSorted l)

  -- A beginning of a sorted list is sorted.
  pub IsSorted-take : (n : ℕ) (l : List A) → IsSorted l → IsSorted (take n l)
  IsSorted-take zero l h = tt
  IsSorted-take (suc n) [] h = tt
  IsSorted-take (suc n) (x ∷ l) h = (head-take n l h.0, IsSorted-take n l h.1)
    where
      head-take : (n : ℕ) (l : List A) → AtMostHead x l → AtMostHead x (take n l)
      head-take zero l h = tt
      head-take (suc n) [] h = tt
      head-take (suc n) (y ∷ l) h = h

  module _ {κ} (P : A → Type κ) where
    All-insert : (x : A) (l : List A) → P x → All P l → All P (insert_sorted x l)
    unfolding insert_sorted
    All-insert x [] p h = (p, tt)
    All-insert x (y ∷ l) p h = elim (Bool-cases (le x y)) [
      | inl below ↦ rw below (p, h)
      | inr above ↦ rw above (h.0, All-insert x l p h.1)
    ]

    pub All-sorted : (l : List A) → All P l → All P (sorted l)
    unfolding sorted
    All-sorted [] h = tt
    All-sorted (x ∷ l) h = All-insert x (sorted l) h.0 (All-sorted l h.1)
