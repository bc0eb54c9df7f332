-- ===== src/Tests/RootsTests.antt =====
-- A file system with the directory /work, which is also the working directory.
use ezsql.Base.{
  ℕ, String, Bool, true, none, some, nat_beq, ◌==◌, string_eq, ◌≡◌, refl, if◌then◌else◌,
}
use ezsql.Roots.{
  FileSystem, root, failure, missing_root, absent, resolve_root, has_ink, asked, IsRoot,
  resolve_root-IsRoot,
}

abbrev fs : FileSystem String
fs = record {
  resolve = λ s. some (if s == "." then "/work" else s);
  is_absolute = λ p. true;
  exists = λ p. p == "/work";
  is_dir = λ p. true;
}

abbrev is_space : ℕ → Bool
is_space = nat_beq 32

run : Unit {0}
unfolding resolve_root has_ink
run = tt

-- A relative root is taken from the working directory.
relative_root : resolve_root fs is_space (some ".") none ≡ root "/work"
unfolding run
relative_root = refl

falls_back : resolve_root fs is_space (some "  ") (some "/work") ≡ root "/work"
unfolding run
falls_back = refl

no_root : resolve_root fs is_space none (some " ") ≡ failure missing_root
unfolding run
no_root = refl

gone : resolve_root fs is_space (some "/gone") (some "/work") ≡ failure absent
unfolding run
gone = refl

resolve_root-IsRoot_example : IsRoot fs is_space (asked fs is_space (some ".") none) "/work"
resolve_root-IsRoot_example = resolve_root-IsRoot fs is_space (some ".") none relative_root
