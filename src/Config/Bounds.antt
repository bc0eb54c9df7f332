-- ===== src/Config/Bounds.antt =====
-- That the numeric fields of what is loaded lie in their ranges (config.py).
use ezsql.Base.{
  String, Bool, true, false, Option, none, some, [], ◌∷◌, ◌==◌, string_eq, if◌then◌else◌, ◌≡◌, refl,
  subst, ap, ◌∙◌, inl, inr, Bool-cases, All, All-map, is_nil,
}
use ezsql.Base.Dict
use ezsql.Base.Dict.{Dict}
use ezsql.Base.Int.{ℤ}
use ezsql.Config.Ranges.{
  IsWithin, AreClamped, clamp-IsWithin, defaults-AreClamped, related_names, IsSound,
  relational-IsSound,
}
use ezsql.Config.Fields.{clamp_ranges, number_defaults}
use ezsql.Config.Validate.{
  clamp_numeric, field, read_env_name, EzsqlConfig, Shape, table, sequence, no_set, Reader, Loaded,
  config, type_error, read_numbers, model_validate, unknown, load_section, load_config, section_of,
  or_defaults, ◌>>=◌,
}

some_eq : {A : Type 0} {a b : A} → some a ≡ some b → a ≡ b
some_eq h = cc h

bind_lem :
    {A B : Type 0} (m : Option A) (f : A → Option B) {b : B}
    → (m >>= f) ≡ some b
    → (a : A) × (m ≡ some a) × (f a ≡ some b)
bind_lem none f h = absurd (cc h)
bind_lem (some a) f h = (a, refl, h)

-- What `load_config` gives has all its fields in range; it may also raise.
abbrev pub IsInRange : Loaded → Type 0
IsInRange (config c) = AreClamped c.numbers
IsInRange type_error = Unit

defaults_present : All (λ name. Dict.has name number_defaults ≡ true) related_names
unfolding Dict.has
defaults_present = (refl, (refl, (refl, (refl, (refl, (refl, (refl, (refl, tt))))))))

module _ {V : Type 0} (reader : Reader V) where
  abbrev clamped : String → V → Option ℤ
  clamped name v = reader.as_int v >>= λ n. some (clamp_numeric name n)

  field-IsWithin :
      (name : String) (default : ℤ) (given : Option V) {v : ℤ}
      → IsWithin (Dict.get name clamp_ranges) default
      → field (clamped name) default given ≡ some v
      → IsWithin (Dict.get name clamp_ranges) v
  field-IsWithin name default none h e = subst (IsWithin (Dict.get name clamp_ranges)) (some_eq e) h
  field-IsWithin name default (some x) h e =
      let (n, _, same) = bind_lem (reader.as_int x) (λ n. some (clamp_numeric name n)) e in
      subst (IsWithin (Dict.get name clamp_ranges)) (some_eq same) (clamp-IsWithin name n)

  -- What is read has the names of the fields, in their order, and lies in their ranges.
  read-AreClamped :
      (section : Dict String V) (ds : Dict String ℤ) {d : Dict String ℤ}
      → AreClamped ds
      → read_numbers reader section ds ≡ some d
      → AreClamped d × ((name : String) → Dict.has name d ≡ Dict.has name ds)
  unfolding read_numbers Dict.has
  read-AreClamped section [] {d} h e =
      let same : [] ≡ d = some_eq e in
      subst (λ d. AreClamped d × ((name : String) → Dict.has name d ≡ false)) same
        (tt, λ name. refl)
  read-AreClamped section ((name, default) ∷ ds) {d} h e =
      let (v, given, rest) = bind_lem (field (clamped name) default (Dict.get name section)) _ e in
      let (vs, read, done) = bind_lem (read_numbers reader section ds) _ rest in
      let same : (name, v) ∷ vs ≡ d = some_eq done in
      let (within, names) = read-AreClamped section ds h.1 read in
      subst (λ d. AreClamped d × ((n : String) → Dict.has n d ≡ Dict.has n ((name, default) ∷ ds)))
        same
        (
          (field-IsWithin name default (Dict.get name section) h.0 given, within),
          λ n. ap (λ b. if name == n then true else b) (names n),
        )

  numbers-IsSound :
      (section : Dict String V) {d : Dict String ℤ}
      → read_numbers reader section number_defaults ≡ some d
      → IsSound d
  unfolding Dict.has
  numbers-IsSound section {d} e =
      let (within, names) = read-AreClamped section number_defaults defaults-AreClamped e in
      (
        within,
        All-map {P = λ name. Dict.has name number_defaults ≡ true}
            {Q = λ name. Dict.has name d ≡ true} related_names (λ name there. names name ∙ there)
            defaults_present,
      )

  validate-AreClamped :
      (section : Dict String V) {c : EzsqlConfig}
      → model_validate reader section ≡ some c
      → AreClamped c.numbers
  unfolding model_validate
  validate-AreClamped section e =
      let (_, _, e1) = bind_lem (field reader.as_optional_str none (Dict.get _ section)) _ e in
      let (_, _, e2) = bind_lem (field reader.as_str _ (Dict.get _ section)) _ e1 in
      let (_, _, e3) = bind_lem (field (read_env_name reader) _ (Dict.get _ section)) _ e2 in
      let (_, _, e4) = bind_lem (field (read_env_name reader) _ (Dict.get _ section)) _ e3 in
      let (_, _, e5) = bind_lem (field reader.as_str _ (Dict.get _ section)) _ e4 in
      let (_, _, e6) = bind_lem (field reader.as_bool _ (Dict.get _ section)) _ e5 in
      let (numbers, read, done) = bind_lem (read_numbers reader section number_defaults) _ e6 in
      subst (λ c. AreClamped c.numbers) (some_eq done)
        (relational-IsSound numbers (numbers-IsSound section read)).0

  or_defaults-AreClamped :
      (section : Dict String V) (o : Option EzsqlConfig)
      → model_validate reader section ≡ o
      → AreClamped (or_defaults o).numbers
  or_defaults-AreClamped section none e = defaults-AreClamped
  or_defaults-AreClamped section (some c) e = validate-AreClamped section e

  section-IsInRange : (s : Shape V) → IsInRange (load_section reader s)
  unfolding load_section
  section-IsInRange (table section) = elim (Bool-cases (is_nil (unknown reader section))) [
    | inl known ↦ rw known (or_defaults-AreClamped section (model_validate reader section) refl)
    | inr other ↦ rw other defaults-AreClamped
  ]
  section-IsInRange sequence = defaults-AreClamped
  section-IsInRange no_set = tt

  -- Whatever the file holds, every numeric field of the settings that are loaded is within its
  -- range in the table of ranges.
  pub load_config-IsInRange :
      (is_file : Bool) (raw : Option (Dict String V)) → IsInRange (load_config reader is_file raw)
  unfolding load_config
  load_config-IsInRange false raw = defaults-AreClamped
  load_config-IsInRange true none = defaults-AreClamped
  load_config-IsInRange true (some raw) =
      section-IsInRange (section_of reader raw (Dict.get "ezsql" raw))
