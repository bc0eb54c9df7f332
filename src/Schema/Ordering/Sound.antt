-- ===== src/Schema/Ordering/Sound.antt =====
-- What an order of migrations is (core/schema/ddl.py, `_order_migrations`).
use ezsql.Base.{
  ℕ, String, Bool, true, false, none, List, [], ◌∷◌, map, nat_beq, ◌==◌, ◌≡◌, ◌⊎◌, refl, arith, inl,
  inr, Bool-cases, Option-cases, All, Perm, string_eq, is_nil, text_le_total, All-map,
}
use ezsql.Base.Dict
use ezsql.Base.Dict.{Dict}
use ezsql.Base.Sorting.{sorted, IsSorted, sorted-Perm, sorted-IsSorted}
use ezsql.Schema.Ordering.{
  Convention, File, ordered, rank, candidates, others, key_of, duplicate, key_le, order_candidates,
  order_all, order_migrations,
}

module _ (is_decimal : ℕ → Bool) where
  -- No later file has the key of an earlier one.
  abbrev pub AreDistinct : Convention → List (File × Convention) → Type 0
  AreDistinct convention [] = Unit
  AreDistinct convention (c ∷ l) =
      All (λ d. (key_of is_decimal convention c == key_of is_decimal convention d) ≡ false) l
      × AreDistinct convention l

  abbrev pub AreOf : Convention → List (File × Convention) → Type 0
  AreOf convention = All (λ c. nat_beq (rank c.1) (rank convention) ≡ true)

  get-set-none :
      (k j : String) (path : String) (d : Dict String String)
      → Dict.get j (Dict.set k path d) ≡ none
      → (Dict.get j d ≡ none) × ((k == j) ≡ false)
  get-set-none k j path d h = ground (arith, Dict.get-set k j path d)

  fresh :
      (convention : Convention) (keys : Dict String String) (l : List (File × Convention))
      → duplicate is_decimal convention keys l ≡ none
      → All (λ c. Dict.get (key_of is_decimal convention c) keys ≡ none) l
        × AreDistinct convention l
  unfolding duplicate
  fresh convention keys [] h = (tt, tt)
  fresh convention keys (c ∷ l) h =
      let key = key_of is_decimal convention c in
      elim (Option-cases (Dict.get key keys)) [
        | inr taken ↦ absurd (cc (rw (duplicate, taken.1) at h))
        | inl free ↦
            (let (others_free, distinct) =
                fresh convention (Dict.set key c.0.0 keys) l (rw (duplicate, free) at h) in
              (
                (
                  free,
                  All-map l
                      (λ d p. (get-set-none key (key_of is_decimal convention d) c.0.0 keys p).0)
                      others_free,
                ),
                (
                  All-map l
                      (λ d p. (get-set-none key (key_of is_decimal convention d) c.0.0 keys p).1)
                      others_free,
                  distinct,
                ),
              ))
      ]

  others-AreOf :
      (convention : Convention) (l : List (File × Convention))
      → is_nil (others is_decimal convention l) ≡ true
      → AreOf convention l
  unfolding others
  others-AreOf convention [] h = tt
  others-AreOf convention ((file, c) ∷ l) h =
      elim (Bool-cases (nat_beq (rank c) (rank convention))) [
        | inl same ↦ (same, others-AreOf convention l (rw same at h))
        | inr other ↦ absurd (cc (rw other at h))
      ]

  -- The candidates are of one convention, have different keys, and stand in the order of the keys.
  abbrev pub IsOrder : Convention → List (File × Convention) → List File → Type 0
  IsOrder convention l files =
      AreOf convention l
      × AreDistinct convention l
      × ((l' : List (File × Convention)) × Perm l l'
          × IsSorted (key_le is_decimal convention) l'
          × (map (λ c. c.0) l' ≡ files))

  order_candidates-IsOrder :
      (convention : Convention) (l : List (File × Convention)) {files : List File}
      → order_candidates is_decimal convention l ≡ ordered files
      → IsOrder convention l files
  unfolding order_candidates
  order_candidates-IsOrder convention l {files} h =
      elim (Bool-cases (is_nil (others is_decimal convention l))) [
        | inr mixed ↦ absurd (cc (rw mixed at h))
        | inl one ↦ elim (Option-cases (duplicate is_decimal convention [] l)) [
          | inr clash ↦ absurd (cc (rw (one, clash.1) at h))
          | inl distinct ↦
              (let le = key_le is_decimal convention in
                let same : map (λ c. c.0) (sorted le l) ≡ files = cc (rw (one, distinct) at h) in
                (
                  others-AreOf convention l one,
                  (fresh convention [] l distinct).1,
                  (
                    sorted le l,
                    sorted-Perm le l,
                    sorted-IsSorted le (λ a b. text_le_total _ _) l,
                    same,
                  ),
                ))
        ]
      ]

  -- The order that is returned is empty where no name is of a convention. Else it is the
  -- files whose names are: of one convention, no two with one version, and in the order of the
  -- versions as texts.
  pub order_migrations-IsOrder :
      (files : List File) {l : List File}
      → order_migrations is_decimal files ≡ ordered l
      → ((candidates is_decimal files ≡ []) × (l ≡ []))
        ⊎ ((convention : Convention) × IsOrder convention (candidates is_decimal files) l)
  unfolding order_migrations
  order_migrations-IsOrder files h = by_candidates (candidates is_decimal files) h
    where
      by_candidates :
          {l : List File} (cs : List (File × Convention))
          → order_all is_decimal cs ≡ ordered l
          → ((cs ≡ []) × (l ≡ [])) ⊎ ((convention : Convention) × IsOrder convention cs l)
      by_candidates [] h = inl (refl, cc h)
      by_candidates (c ∷ cs) h = inr (c.1, order_candidates-IsOrder c.1 (c ∷ cs) h)
