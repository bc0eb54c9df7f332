-- ===== src/Schema/Repository/Reading.antt =====
-- How the migrations are read (core/schema/repository.py).
use ezsql.Base.{ℕ, ◌+◌, ◌≤◌, ◌<◌, String, Option, none, some, List, [], ◌∷◌, ◌++◌, ltb, ◌≡◌, refl, ap, subst, inl, inr, Bool-cases, arith}


use ezsql.Schema.Ordering.{File}





use ezsql.Schema.Repository.{Entry, Bounds, Reason, set_too_large, cannot_stat, file_too_large, cannot_read, Found, found, missing, read_text, add_file, read_files, with_size}

use ezsql.Schema.Repository.Discovery.{Gives}

-- The manifest has the files in order, with their texts; no file is over the bound, and this is
-- the number of bytes of all.
abbrev pub AreRead : ℕ → List Entry → List File → ℕ → Type 0
AreRead max_bytes [] [] total = total ≡ 0
AreRead max_bytes (e ∷ entries) (f ∷ files) total =
    (e.rel ≡ f.0) × (e.text ≡ some f.1)
    × ((size : ℕ) × (rest : ℕ) × (e.size ≡ some size) × (size ≤ max_bytes)
        × (total ≡ size + rest)
        × AreRead max_bytes entries files rest)
AreRead _ _ _ _ = ⊥

-- All files are read, after so many bytes.
abbrev pub IsRead : Bounds → ℕ → List Entry → List File → Type 0
IsRead bounds before entries manifest =
    (total : ℕ) × AreRead bounds.max_schema_file_bytes entries manifest total
    × (before + total ≤ bounds.max_schema_total_bytes)

-- Why the loop stops at a file, after so many bytes.
abbrev pub Stops : Bounds → Entry → ℕ → Reason → Type 0
Stops bounds e before (cannot_stat name) = (name ≡ e.name) × (e.size ≡ none)
Stops bounds e before (file_too_large name) =
    (name ≡ e.name)
    × ((size : ℕ) × (e.size ≡ some size) × (bounds.max_schema_file_bytes < size))
Stops bounds e before set_too_large =
    (size : ℕ) × (e.size ≡ some size) × (bounds.max_schema_total_bytes < before + size)
Stops bounds e before (cannot_read name) = (name ≡ e.name) × (e.text ≡ none)
Stops bounds e before _ = ⊥

-- The files before one are read, and the loop stops at that one.
abbrev pub IsUnread : Bounds → ℕ → List Entry → Reason → Type 0
IsUnread bounds before entries r =
    (done : List Entry) × (e : Entry) × (rest : List Entry) × (manifest : List File) × (total : ℕ)
    × (entries ≡ done ++ e ∷ rest)
    × AreRead bounds.max_schema_file_bytes done manifest total
    × Stops bounds e (before + total) r

module _ (bounds : Bounds) (before : ℕ) (e : Entry) (entries : List Entry) where
  stopped : (r : Reason) → Stops bounds e before r → IsUnread bounds before (e ∷ entries) r
  stopped r h =
      ([], e, entries, [], 0, refl, refl, subst (λ n. Stops bounds e n r) (omega arith) h)

  add_file-IsRead :
      (size : ℕ) (text : Option String) (rest : Found (List File))
      → e.size ≡ some size
      → e.text ≡ text
      → size ≤ bounds.max_schema_file_bytes
      → before + size ≤ bounds.max_schema_total_bytes
      → Gives rest (IsRead bounds (before + size) entries) (IsUnread bounds (before + size) entries)
      → Gives (add_file e (read_text e text) rest) (IsRead bounds before (e ∷ entries))
          (IsUnread bounds before (e ∷ entries))
  add_file-IsRead size none rest known t small fits h = stopped (cannot_read e.name) (refl, t)
  add_file-IsRead size (some text) (missing r) known t small fits
      (done, e', rest, manifest, total, same, read, stop) =
    (
      e ∷ done,
      e',
      rest,
      (e.rel, text) ∷ manifest,
      size + total,
      ap (λ l. e ∷ l) same,
      (refl, t, (size, total, known, small, refl, read)),
      subst (λ n. Stops bounds e' n r) (omega arith) stop,
    )
  add_file-IsRead size (some text) (found manifest) known t small fits (total, read, bounded) =
      (
        size + total,
        (refl, t, (size, total, known, small, refl, read)),
        omega (arith, bounded),
      )

  with_size-IsRead :
      (rest : ℕ → Found (List File)) (o : Option ℕ)
      → e.size ≡ o
      → ((t : ℕ)
          → t ≤ bounds.max_schema_total_bytes
          → Gives (rest t) (IsRead bounds t entries) (IsUnread bounds t entries))
      → Gives (with_size bounds before e rest o) (IsRead bounds before (e ∷ entries))
          (IsUnread bounds before (e ∷ entries))
  with_size-IsRead rest none known h = stopped (cannot_stat e.name) (refl, known)
  with_size-IsRead rest (some size) known h =
      elim (Bool-cases (ltb bounds.max_schema_file_bytes size)) [
        | inl large ↦
            rw large
              (stopped (file_too_large e.name) (refl, (size, known, ground (arith, large))))
        | inr small ↦ elim (Bool-cases (ltb bounds.max_schema_total_bytes (before + size))) [
          | inl over ↦
              rw (small, over) (stopped set_too_large (size, known, ground (arith, over)))
          | inr fits ↦
              rw (small, fits)
                (add_file-IsRead size e.text (rest (before + size)) known refl
                  (ground (arith, small)) (ground (arith, fits)) (h (before + size) (ground (arith, fits))))
        ]
      ]

pub read_files-IsRead :
    (bounds : Bounds) (before : ℕ) (entries : List Entry)
    → before ≤ bounds.max_schema_total_bytes
    → Gives (read_files bounds before entries) (IsRead bounds before entries)
        (IsUnread bounds before entries)
unfolding read_files
read_files-IsRead bounds before [] h = (0, refl, omega (arith, h))
read_files-IsRead bounds before (e ∷ entries) h =
    with_size-IsRead bounds before e entries (λ t. read_files bounds t entries) e.size refl
      (λ t. read_files-IsRead bounds t entries)

