-- ===== src/Roots.antt =====
-- server/roots.py: the root of the project. The file system is a parameter, as is the host's table
-- of white space.
use Prim.Native.Char.{code}
use ezsql.Base.{
  ℕ, String, Bool, true, false, ◌||◌, not, Option, none, some, ◌≡◌, refl, subst, inl, inr,
  Bool-cases, if◌then◌else◌, if_lem,
}

-- `Path(s).resolve()`, `none` where it raises, and what is asked of a path. A relative text is
-- resolved against the working directory.
pub record FileSystem (P : Type 0) : Type 0 where
  pub resolve : String → Option P
  pub is_absolute : P → Bool
  pub exists : P → Bool
  pub is_dir : P → Bool

-- The failures, by their kind; the second kind has four texts.
pub data RootFailure : Type 0 where
  missing_root : RootFailure
  unresolved relative absent not_a_directory : RootFailure

pub data Resolved (P : Type 0) : Type 0 where
  root : P → Resolved P
  failure : RootFailure → Resolved P

module _ {P : Type 0} (fs : FileSystem P) (is_space : ℕ → Bool) where
  -- `s.strip()` is not empty.
  unfoldable pub has_ink : String → Bool
  has_ink String.[] = false
  has_ink (String.◌∷◌ c s) = not (is_space (code c)) || has_ink s

  abbrev pub is_given : Option String → Bool
  is_given none = false
  is_given (some s) = has_ink s

  abbrev pub checked : Option P → Resolved P
  checked none = failure unresolved
  checked (some path) =
      if not (fs.is_absolute path)
      then failure relative
      else if not (fs.exists path)
      then failure absent
      else if not (fs.is_dir path)
      then failure not_a_directory
      else root path

  -- `_validate_root`
  abbrev pub validate_root : String → Resolved P
  validate_root root_str = checked (fs.resolve root_str)

  abbrev pub validate : Option String → Resolved P
  validate none = failure missing_root
  validate (some s) = validate_root s

  -- `resolve_root`, with the parameter and the root of the settings.
  unfoldable pub resolve_root : Option String → Option String → Resolved P
  unfolding has_ink
  resolve_root root_param project_root =
      if is_given root_param
      then validate root_param
      else if is_given project_root
      then validate project_root
      else failure missing_root

  -- The root that was asked for: the parameter where it is given, else that of the settings.
  abbrev pub asked : Option String → Option String → Option String
  asked root_param project_root = if is_given root_param then root_param else project_root

  abbrev pub IsRoot : Option String → P → Type 0
  IsRoot s path =
      ((text : String) × (s ≡ some text) × (fs.resolve text ≡ some path))
      × (fs.is_absolute path ≡ true)
      × (fs.exists path ≡ true)
      × (fs.is_dir path ≡ true)

  abbrev GivesRoot : Option String → Resolved P → Type 0
  GivesRoot s (root path) = IsRoot s path
  GivesRoot s (failure f) = Unit

  checked-GivesRoot :
      (text : String) (o : Option P) → fs.resolve text ≡ o → GivesRoot (some text) (checked o)
  checked-GivesRoot text none e = tt
  checked-GivesRoot text (some path) e = elim (Bool-cases (fs.is_absolute path)) [
    | inr relative_path ↦ rw relative_path tt
    | inl absolute ↦ elim (Bool-cases (fs.exists path)) [
      | inr gone ↦ rw (absolute, gone) tt
      | inl there ↦ elim (Bool-cases (fs.is_dir path)) [
        | inr file ↦ rw (absolute, there, file) tt
        | inl dir ↦ rw (absolute, there, dir) ((text, refl, e), absolute, there, dir)
      ]
    ]
  ]

  validate-GivesRoot : (s : Option String) → GivesRoot s (validate s)
  validate-GivesRoot none = tt
  validate-GivesRoot (some text) = checked-GivesRoot text (fs.resolve text) refl

  resolve-GivesRoot :
      (root_param project_root : Option String)
      → GivesRoot (asked root_param project_root) (resolve_root root_param project_root)
  unfolding resolve_root
  resolve-GivesRoot root_param project_root = elim (Bool-cases (is_given root_param)) [
    | inl given ↦ rw (resolve_root, given) (validate-GivesRoot root_param)
    | inr other ↦
        rw (resolve_root, other)
          (if_lem (GivesRoot project_root) (is_given project_root) (validate-GivesRoot project_root)
            tt)
  ]

  -- A root that is returned is what the parameter resolves to, or what the settings' root does
  -- where the parameter is blank; it is absolute, exists and is a directory.
  pub resolve_root-IsRoot :
      (root_param project_root : Option String) {path : P}
      → resolve_root root_param project_root ≡ root path
      → IsRoot (asked root_param project_root) path
  resolve_root-IsRoot root_param project_root h =
      subst (GivesRoot (asked root_param project_root)) h
        (resolve-GivesRoot root_param project_root)
