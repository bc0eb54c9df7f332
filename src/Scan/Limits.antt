-- ===== src/Scan/Limits.antt =====
-- How many files a scan reports (core/context/scan.py).
use ezsql.Base.{
  ℕ, suc, ◌+◌, ◌≤◌, String, Bool, true, false, ◌&&◌, ◌||◌, not, Option, none, some, List, [], ◌∷◌,
  ◌++◌, is_in, leb, ltb, length, length-append, ◌==◌, string_eq, if◌then◌else◌, if_lem, ◌≡◌, ◌⊎◌,
  refl, sym, ap, ◌∙◌, inl, inr, Bool-cases, arith,
}
use ezsql.Base.Dict
use ezsql.Base.Dict.{Dict}
use ezsql.Base.Sorting.{sorted, insert_sorted}
use ezsql.Schema.Repository.{default_skip_dirs, ends_with}
use ezsql.Scan.{
  FileClassification, ScanFile, Folder, ScanLimits, Scan, or_nil, empty_scan, report, scan_files,
  sort_values, dir_le, sorted_result, reach, Classified, classified_le, classify_file, reported,
  reported_sql, scan_sized, scan_file, scan_with_classification,
}

abbrev number : Bool → ℕ
number true = 1
number false = 0

-- How many of the files match.
abbrev pub matches : (String × ScanFile → Bool) → List (String × ScanFile) → ℕ
matches is_match [] = 0
matches is_match (f ∷ files) = number (is_match f) + matches is_match files

module _ {A : Type 0} where
  -- The files that are reported.
  abbrev pub count : Dict String (List A) → ℕ
  count [] = 0
  count (kv ∷ d) = length kv.1 + count d

  count-set :
      (rel : String) (l' : List A) (d : Dict String (List A))
      → count (Dict.set rel l' d) + length (or_nil (Dict.get rel d)) ≡ length l' + count d
  unfolding Dict.set Dict.get
  count-set rel l' [] = omega arith
  count-set rel l' ((k, l) ∷ d) = elim (Bool-cases (k == rel)) [
    | inl same ↦ rw same (omega arith)
    | inr other ↦ rw other (omega (arith, count-set rel l' d))
  ]

  count-report :
      (rel : String) (a : A) (d : Dict String (List A))
      → count (Dict.set rel (or_nil (Dict.get rel d) ++ a ∷ []) d) ≡ suc (count d)
  count-report rel a d =
      let l = or_nil (Dict.get rel d) in
      omega (arith, count-set rel (l ++ a ∷ []) d, length-append l (a ∷ []))

  module _ (le : A → A → Bool) where
    length-insert : (a : A) (l : List A) → length (insert_sorted le a l) ≡ suc (length l)
    unfolding insert_sorted
    length-insert a [] = refl
    length-insert a (b ∷ l) = elim (Bool-cases (le a b)) [
      | inl below ↦ rw below refl
      | inr above ↦ rw above (ap suc (length-insert a l))
    ]

    length-sorted : (l : List A) → length (sorted le l) ≡ length l
    unfolding sorted
    length-sorted [] = refl
    length-sorted (a ∷ l) = length-insert a (sorted le l) ∙ ap suc (length-sorted l)

    count-sort_values : (d : Dict String (List A)) → count (sort_values le d) ≡ count d
    count-sort_values [] = refl
    count-sort_values ((k, l) ∷ d) = omega (arith, length-sorted l, count-sort_values d)

  count-insert :
      (kv : String × List A) (d : Dict String (List A))
      → count (insert_sorted dir_le kv d) ≡ length kv.1 + count d
  unfolding insert_sorted
  count-insert kv [] = refl
  count-insert kv (kw ∷ d) = elim (Bool-cases (dir_le kv kw)) [
    | inl below ↦ rw below refl
    | inr above ↦ rw above (omega (arith, count-insert kv d))
  ]

  count-sorted : (d : Dict String (List A)) → count (sorted dir_le d) ≡ count d
  unfolding sorted
  count-sorted [] = refl
  count-sorted (kv ∷ d) = omega (arith, count-insert kv (sorted dir_le d), count-sorted d)

  count-sorted_result :
      (le : A → A → Bool) (s : Scan A) → count (sorted_result le s).by_dir ≡ count s.by_dir
  unfolding sorted_result
  count-sorted_result le s = count-sort_values le (sorted dir_le s.by_dir) ∙ count-sorted s.by_dir

  abbrev IsCounted : ℕ → Scan A → Type 0
  IsCounted max_files s = (count s.by_dir ≡ s.files_seen) × (s.files_seen ≤ max_files)

  report-IsCounted :
      (max_files : ℕ) (rel : String) (a : A) (bytes : ℕ) (s : Scan A)
      → leb max_files s.files_seen ≡ false
      → IsCounted max_files s
      → IsCounted max_files (report rel a bytes s)
  unfolding report
  report-IsCounted max_files rel a bytes s room h =
      (count-report rel a s.by_dir ∙ ap suc h.0, ground (arith, room))

  -- What every step keeps, the loop keeps.
  scan_keeps :
      (P : Scan A → Type 0) (step : String × ScanFile → Scan A → Scan A)
      (keeps : (f : String × ScanFile) (s : Scan A) → P s → P (step f s))
      (files : List (String × ScanFile)) (s : Scan A)
      → P s
      → P (scan_files step files s)
  unfolding scan_files
  scan_keeps P step keeps [] s h = h
  scan_keeps P step keeps (f ∷ files) s h =
      if_lem P (step f s).truncated (keeps f s h)
        (scan_keeps P step keeps files (step f s) (keeps f s h))

  branch_true : (b : Bool) (x y : Scan A) → b ≡ true → (if b then x else y) ≡ x
  branch_true true x y h = refl
  branch_true false x y h = absurd (cc h)

  branch_false : (b : Bool) (x y : Scan A) → b ≡ false → (if b then x else y) ≡ y
  branch_false true x y h = absurd (cc h)
  branch_false false x y h = refl

  -- What holds of a step holds of the loop: each file counts once where it matches.
  scan_complete :
      (step : String × ScanFile → Scan A → Scan A) (is_match : String × ScanFile → Bool)
      (counts : (f : String × ScanFile) (s : Scan A)
        → (step f s).truncated ≡ false
        → (step f s).files_seen ≡ s.files_seen + number (is_match f))
      (files : List (String × ScanFile)) (s : Scan A)
      → (scan_files step files s).truncated ≡ false
      → (scan_files step files s).files_seen ≡ s.files_seen + matches is_match files
  unfolding scan_files
  scan_complete step is_match counts [] s h = omega arith
  scan_complete step is_match counts (f ∷ files) s h = elim (Bool-cases (step f s).truncated) [
    | inl stopped ↦
        (let e : scan_files step (f ∷ files) s ≡ step f s =
            branch_true (step f s).truncated _ _ stopped in
          absurd (cc (sym (ap (λ x. x.truncated) e ∙ stopped) ∙ h)))
    | inr goes_on ↦
        (let e : scan_files step (f ∷ files) s ≡ scan_files step files (step f s) =
            branch_false (step f s).truncated _ _ goes_on in
          let rest =
            scan_complete step is_match counts files (step f s)
              (sym (ap (λ x. x.truncated) e) ∙ h) in
          ap (λ x. x.files_seen) e ∙ omega (arith, counts f s goes_on, rest))
  ]

zero_add : (n : ℕ) → 0 + n ≡ n
zero_add n = omega arith

module _ (has_keyword : String → Bool) (is_migration_name : String → Bool)
    (limits : ScanLimits) where
  open limits use {max_file_size, max_files_per_scan, max_scan_depth}

  abbrev IsWithin : Scan Classified → Type 0
  IsWithin = IsCounted max_files_per_scan

  reported_sql-IsCounted :
      (rel name : String) (o : Option FileClassification) (s : Scan Classified)
      → leb max_files_per_scan s.files_seen ≡ false
      → IsWithin s
      → IsWithin (reported_sql has_keyword is_migration_name limits rel name o s)
  reported_sql-IsCounted rel name none s room h = h
  reported_sql-IsCounted rel name (some c) s room h =
      report-IsCounted max_files_per_scan rel (name, c) 0 s room h

  reported-IsCounted :
      (rel name : String) (bytes : ℕ) (o : Option FileClassification) (s : Scan Classified)
      → leb max_files_per_scan s.files_seen ≡ false
      → IsWithin s
      → IsWithin (reported has_keyword is_migration_name limits rel name bytes o s)
  reported-IsCounted rel name bytes none s room h = h
  reported-IsCounted rel name bytes (some c) s room h =
      report-IsCounted max_files_per_scan rel (name, c) bytes s room h

  sized-IsCounted :
      (rel : String) (f : ScanFile) (o : Option ℕ) (s : Scan Classified)
      → leb max_files_per_scan s.files_seen ≡ false
      → IsWithin s
      → IsWithin (scan_sized has_keyword is_migration_name limits rel f o s)
  sized-IsCounted rel f none s room h = h
  sized-IsCounted rel f (some size) s room h =
      let c = classify_file has_keyword is_migration_name f in
      if_lem IsWithin (ends_with ".sql" f.name) (reported_sql-IsCounted rel f.name c s room h) (
        if_lem IsWithin (ltb max_file_size size) h (
          if_lem IsWithin (ltb limits.max_total_bytes (s.total_bytes_read + size)) h
            (reported-IsCounted rel f.name size c s room h)))

  file-IsCounted :
      (f : String × ScanFile) (s : Scan Classified)
      → IsWithin s
      → IsWithin (scan_file has_keyword is_migration_name limits f s)
  unfolding scan_file
  file-IsCounted f s h = elim (Bool-cases (leb max_files_per_scan s.files_seen)) [
    | inl full ↦ rw (scan_file, full) h
    | inr room ↦
        rw (scan_file, room)
          (if_lem IsWithin (is_in f.1.name default_skip_dirs) h
            (sized-IsCounted f.0 f.1 f.1.size s room h))
  ]

  -- The files that are reported wherever the scan comes to them: of known size, by no name that is
  -- skipped, and either of SQL by the name, or small enough and with a class.
  abbrev pub has_class : Option FileClassification → Bool
  has_class none = false
  has_class (some c) = true

  abbrev pub is_sized_match : ScanFile → Option ℕ → Bool
  is_sized_match f none = false
  is_sized_match f (some size) =
      (ends_with ".sql" f.name || not (ltb max_file_size size))
      && has_class (classify_file has_keyword is_migration_name f)

  abbrev pub is_match : String × ScanFile → Bool
  is_match f = not (is_in f.1.name default_skip_dirs) && is_sized_match f.1 f.1.size

  -- What a step does to the count, unless it stops.
  abbrev Counts : ℕ → Bool → Scan Classified → Type 0
  Counts before b s' = s'.truncated ≡ false → s'.files_seen ≡ before + number b

  reported_sql-Counts :
      (rel name : String) (o : Option FileClassification) (s : Scan Classified)
      → Counts s.files_seen
          (has_class o)
          (reported_sql has_keyword is_migration_name limits rel name o s)
  unfolding report
  reported_sql-Counts rel name none s h = omega arith
  reported_sql-Counts rel name (some c) s h = omega arith

  reported-Counts :
      (rel name : String) (bytes : ℕ) (o : Option FileClassification) (s : Scan Classified)
      → Counts s.files_seen
          (has_class o)
          (reported has_keyword is_migration_name limits rel name bytes o s)
  unfolding report
  reported-Counts rel name bytes none s h = omega arith
  reported-Counts rel name bytes (some c) s h = omega arith

  sized-Counts :
      (rel : String) (f : ScanFile) (o : Option ℕ) (s : Scan Classified)
      → Counts s.files_seen
          (is_sized_match f o)
          (scan_sized has_keyword is_migration_name limits rel f o s)
  sized-Counts rel f none s = λ h. omega arith
  sized-Counts rel f (some size) s =
      let c = classify_file has_keyword is_migration_name f in
      elim (Bool-cases (ends_with ".sql" f.name)) [
        | inl sql ↦ rw sql (reported_sql-Counts rel f.name c s)
        | inr other ↦ elim (Bool-cases (ltb max_file_size size)) [
          | inl large ↦ rw (other, large) (λ h. omega arith)
          | inr small ↦ elim (Bool-cases (ltb limits.max_total_bytes (s.total_bytes_read + size))) [
            | inl over ↦ rw (other, small, over) (λ h. absurd (cc h))
            | inr fits ↦ rw (other, small, fits) (reported-Counts rel f.name size c s)
          ]
        ]
      ]

  file-Counts :
      (f : String × ScanFile) (s : Scan Classified)
      → Counts s.files_seen (is_match f) (scan_file has_keyword is_migration_name limits f s)
  unfolding scan_file
  file-Counts f s = elim (Bool-cases (leb max_files_per_scan s.files_seen)) [
    | inl full ↦ rw (scan_file, full) (λ h. absurd (cc h))
    | inr room ↦ elim (Bool-cases (is_in f.1.name default_skip_dirs)) [
      | inl skipped ↦ rw (scan_file, room, skipped) (λ h. omega arith)
      | inr seen ↦ rw (scan_file, room, seen) (sized-Counts f.0 f.1 f.1.size s)
    ]
  ]

  -- A scan reports at most `max_files_per_scan` files, and it is marked as truncated or reports as
  -- many as match among the files that it can reach.
  pub scan_counts :
      (root : Folder)
      → (count (scan_with_classification has_keyword is_migration_name limits root).by_dir
          ≤ max_files_per_scan)
        × (((scan_with_classification has_keyword is_migration_name limits root).truncated ≡ true)
            ⊎ (count (scan_with_classification has_keyword is_migration_name limits root).by_dir
                ≡ matches is_match (reach (leb max_scan_depth) "." 0 root)))
  unfolding scan_with_classification sorted_result
  scan_counts root =
      let step = scan_file has_keyword is_migration_name limits in
      let files = reach (leb max_scan_depth) "." 0 root in
      let last = scan_files step files empty_scan in
      let kept = scan_keeps IsWithin step file-IsCounted files empty_scan (refl, omega arith) in
      let same = count-sorted_result classified_le last in
      (
        omega (arith, kept.0, kept.1, same),
        elim (Bool-cases last.truncated) [
          | inl cut ↦ inl cut
          | inr whole ↦ inr (
              same
              ∙ kept.0
              ∙ scan_complete step is_match file-Counts files empty_scan whole
              ∙ zero_add _)
        ],
      )
