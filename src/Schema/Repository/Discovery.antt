-- ===== src/Schema/Repository/Discovery.antt =====
-- What the discovery of the migrations finds (core/schema/repository.py).
use ezsql.Base.{ℕ, ◌≤◌, ◌<◌, String, List, [], ◌∷◌, ◌++◌, length, length-append, map, select, ltb, ◌≡◌, refl, sym, subst, inl, inr, Bool-cases, arith}
use mathlib.Core.List.{append-nil, append_assoc}







use ezsql.Schema.Repository.{Entry, Directory, Bounds, Reason, no_migration_directory, too_many_files, ambiguous_roots, Found, found, missing, is_migration, collect, from_roots, os_walk}


-- What holds of what is found, or of the reason why it is not.
abbrev pub Gives {ℓ κ} : {A : Type ℓ} → Found A → (A → Type κ) → (Reason → Type κ) → Type κ
Gives (found a) P Q = P a
Gives (missing r) P Q = Q r

-- The loop over the files takes the migrations among them, all in order, unless they are too many.
abbrev IsCollected : ℕ → List Entry → Found (List Entry) → Type 0
IsCollected max_files files m =
    Gives m (λ all. (all ≡ files) × (length all ≤ max_files))
      (λ r. (r ≡ too_many_files) × (max_files < length files))

collect-IsCollected :
    (max_files : ℕ) (entries files : List Entry)
    → length files ≤ max_files
    → IsCollected max_files (files ++ select is_migration entries) (collect max_files entries files)
unfolding collect
collect-IsCollected max_files [] files h = (sym (append-nil files), h)
collect-IsCollected max_files (e ∷ entries) files h = elim (Bool-cases (is_migration e)) [
  | inr other ↦ rw (collect, other) (collect-IsCollected max_files entries files h)
  | inl good ↦
      let rest = select is_migration entries in
      elim (Bool-cases (ltb max_files (length (files ++ e ∷ [])))) [
        | inl many ↦
            rw (collect, good, many)
              (refl, ground (arith, many, length-append files (e ∷ []), length-append files (e ∷ rest)))
        | inr few ↦
            rw (collect, good, few)
              (subst
                (λ l. IsCollected max_files l (collect max_files entries (files ++ e ∷ [])))
                (append_assoc files (e ∷ []) rest)
                (collect-IsCollected max_files entries (files ++ e ∷ []) (ground (arith, few))))
      ]
]

abbrev pub Roots : Type 0
Roots = List (String × Directory)

-- The files are the migrations of the only root that is there.
abbrev pub AreMigrations : Roots → List Entry → Type 0
AreMigrations roots files =
    (rel : String) × (d : Directory) × (roots ≡ (rel, d) ∷ [])
    × (files ≡ select is_migration (os_walk d))

abbrev pub IsDiscovered : Bounds → Roots → List Entry → Type 0
IsDiscovered bounds roots files =
    AreMigrations roots files × (length files ≤ bounds.max_schema_files)

-- Why no files are discovered.
abbrev pub IsUndiscovered : Bounds → Roots → Reason → Type 0
IsUndiscovered bounds roots no_migration_directory = roots ≡ []
IsUndiscovered bounds roots (ambiguous_roots names) =
    (2 ≤ length roots) × (names ≡ map (λ r. r.0) roots)
IsUndiscovered bounds roots too_many_files =
    (files : List Entry) × AreMigrations roots files × (bounds.max_schema_files < length files)
IsUndiscovered bounds roots _ = ⊥

pub roots-IsDiscovered :
    (bounds : Bounds) (roots : Roots)
    → Gives (from_roots bounds roots) (IsDiscovered bounds roots) (IsUndiscovered bounds roots)
roots-IsDiscovered bounds [] = refl
roots-IsDiscovered bounds (d ∷ []) =
    of_root (collect bounds.max_schema_files (os_walk d.1) [])
      (collect-IsCollected bounds.max_schema_files (os_walk d.1) [] (omega arith))
  where
    of_root :
        (m : Found (List Entry))
        → IsCollected bounds.max_schema_files (select is_migration (os_walk d.1)) m
        → Gives m (IsDiscovered bounds (d ∷ [])) (IsUndiscovered bounds (d ∷ []))
    of_root (found files) h = ((d.0, d.1, refl, h.0), h.1)
    of_root (missing r) h =
        subst (IsUndiscovered bounds (d ∷ [])) (sym h.0) (_, (d.0, d.1, refl, refl), h.1)
roots-IsDiscovered bounds (d ∷ (d' ∷ ds)) = (omega arith, refl)

