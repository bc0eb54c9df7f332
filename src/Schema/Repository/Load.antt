-- ===== src/Schema/Repository/Load.antt =====
-- What a load of the repository's schema gives (core/schema/repository.py).
use ezsql.Base.{ℕ, String, Bool, true, false, Option, none, some, List, [], ◌∷◌, ◌≡◌, ◌⊎◌, refl, inl, inr, arith}

use ezsql.Schema.Model.{SchemaModel}
use ezsql.Schema.Ordering.{File}
use ezsql.Schema.Replay.{Sqlglot}
use ezsql.Schema.Replay.Keeps.{IsSound}
use ezsql.Schema.Migrations.{Migrated, model, refused, parse_migrations}
use ezsql.Schema.Migrations.Sound.{parse_migrations-IsSound}
use ezsql.Keys.{schema_key}
use ezsql.Schema.Repository.{Entry, Directory, Bounds, Reason, SchemaLoadResult, no_migration_directory, too_many_files, no_migration_files, set_too_large, ambiguous_roots, cannot_stat, file_too_large, cannot_read, not_ordered, unavailable, available, Found, found, missing, populated, discover_migration_files, read_files, parsed, with_cached, with_read, with_files, load_repo_schema, migration_dirs}

use ezsql.Schema.Repository.Discovery.{Gives, Roots, AreMigrations, IsDiscovered, IsUndiscovered, roots-IsDiscovered}
use ezsql.Schema.Repository.Reading.{IsRead, IsUnread, read_files-IsRead}

module _ {N : Type 0} (sqlglot : Sqlglot N) (parse : String → Option (List N))
    (is_decimal : ℕ → Bool) (digest : ℕ → String → String) (version : Option String)
    (bounds : Bounds) (cached : String → Option SchemaModel) where
  abbrev pub replayed : List File → Migrated
  replayed manifest =
      parse_migrations sqlglot parse is_decimal bounds.max_parser_warnings manifest

  -- Why there is no schema.
  abbrev pub IsUnavailable : Roots → Reason → Type 0
  IsUnavailable roots no_migration_files = AreMigrations roots []
  IsUnavailable roots (not_ordered a) =
      (files : List Entry) × (manifest : List File) × IsDiscovered bounds roots files
      × IsRead bounds 0 files manifest
      × (cached (schema_key digest version manifest) ≡ none)
      × (replayed manifest ≡ refused a)
  IsUnavailable roots r =
      IsUndiscovered bounds roots r
      ⊎ ((files : List Entry) × IsDiscovered bounds roots files × IsUnread bounds 0 files r)

  -- Where the schema is from: the cache, or the files.
  abbrev pub IsFrom : List File → SchemaModel → Bool → Type 0
  IsFrom manifest s true = cached (schema_key digest version manifest) ≡ some s
  IsFrom manifest s false =
      (cached (schema_key digest version manifest) ≡ none)
      × (replayed manifest ≡ model s)
      × IsSound s

  -- A reason and no schema, or a schema and no reason.
  abbrev pub IsLoad : Roots → SchemaLoadResult → Type 0
  IsLoad roots r =
      ((reason : Reason) × (r ≡ unavailable reason) × IsUnavailable roots reason)
      ⊎ ((files : List Entry) × (manifest : List File) × (s : SchemaModel) × (hit : Bool)
          × (r ≡ available s (schema_key digest version manifest) manifest hit)
          × IsDiscovered bounds roots files
          × IsRead bounds 0 files manifest
          × IsFrom manifest s hit)

  undiscovered :
      (roots : Roots) (r : Reason) → IsUndiscovered bounds roots r → IsUnavailable roots r
  undiscovered roots no_migration_directory h = inl h
  undiscovered roots (ambiguous_roots names) h = inl h
  undiscovered roots too_many_files h = inl h
  undiscovered roots no_migration_files h = absurd h
  undiscovered roots set_too_large h = absurd h
  undiscovered roots (cannot_stat name) h = absurd h
  undiscovered roots (file_too_large name) h = absurd h
  undiscovered roots (cannot_read name) h = absurd h
  undiscovered roots (not_ordered a) h = absurd h

  unread :
      (roots : Roots) (r : Reason) (files : List Entry)
      → IsDiscovered bounds roots files
      → IsUnread bounds 0 files r
      → IsUnavailable roots r
  unread roots set_too_large files d h = inr (files, d, h)
  unread roots (cannot_stat name) files d h = inr (files, d, h)
  unread roots (file_too_large name) files d h = inr (files, d, h)
  unread roots (cannot_read name) files d h = inr (files, d, h)
  unread roots no_migration_directory files d (_, _, _, _, _, _, _, stop) = absurd stop
  unread roots (ambiguous_roots names) files d (_, _, _, _, _, _, _, stop) = absurd stop
  unread roots too_many_files files d (_, _, _, _, _, _, _, stop) = absurd stop
  unread roots no_migration_files files d (_, _, _, _, _, _, _, stop) = absurd stop
  unread roots (not_ordered a) files d (_, _, _, _, _, _, _, stop) = absurd stop

  module _ (roots : Roots) where
    module _ (files : List Entry) (discovered : IsDiscovered bounds roots files)
        (manifest : List File) (read : IsRead bounds 0 files manifest) where
      abbrev key : String
      key = schema_key digest version manifest

      parsed-IsLoad :
          (m : Migrated)
          → cached key ≡ none
          → replayed manifest ≡ m
          → IsLoad roots (parsed sqlglot parse is_decimal digest version key manifest m).0
      parsed-IsLoad (model s) fresh e =
          inr (
            files,
            manifest,
            s,
            false,
            refl,
            discovered,
            read,
            (
              fresh,
              e,
              parse_migrations-IsSound sqlglot parse is_decimal bounds.max_parser_warnings manifest s
                  e,
            ),
          )
      parsed-IsLoad (refused a) fresh e =
          inl (_, refl, (files, manifest, discovered, read, fresh, e))

      cached-IsLoad :
          (o : Option SchemaModel)
          → cached key ≡ o
          → IsLoad roots
              (with_cached sqlglot parse is_decimal digest version bounds key manifest o).0
      cached-IsLoad (some s) e = inr (files, manifest, s, true, refl, discovered, read, e)
      cached-IsLoad none e = parsed-IsLoad _ e refl

    read_then-IsLoad :
        (files : List Entry) (m : Found (List File))
        → IsDiscovered bounds roots files
        → Gives m (IsRead bounds 0 files) (IsUnread bounds 0 files)
        → IsLoad roots (with_read sqlglot parse is_decimal digest version bounds cached m).0
    read_then-IsLoad files (missing r) d h = inl (r, refl, unread roots r files d h)
    read_then-IsLoad files (found manifest) d h = cached-IsLoad files d manifest h _ refl

    files-IsLoad :
        (m : Found (List Entry))
        → Gives m (IsDiscovered bounds roots) (IsUndiscovered bounds roots)
        → IsLoad roots (with_files sqlglot parse is_decimal digest version bounds cached m).0
    files-IsLoad (missing r) h = inl (r, refl, undiscovered roots r h)
    files-IsLoad (found []) h = inl (_, refl, h.0)
    files-IsLoad (found (e ∷ files)) h =
        read_then-IsLoad (e ∷ files) (read_files bounds 0 (e ∷ files)) h
          (read_files-IsRead bounds 0 (e ∷ files) (omega arith))

  -- A load gives a reason and no schema, or a schema and no reason. A schema comes with a manifest
  -- that has, in the order of the walk, the texts of exactly the migrations under the only root that
  -- is there, which are few enough, with known sizes, within the limits on each and on all; it is
  -- what the cache has under the manifest's key or, where that has none, what `parse_migrations`
  -- makes of the manifest, which is sound. A reason holds: no root or several, too many migrations
  -- or none, an order that is refused, or a file at which the loop stops after it has read those
  -- before, because its size or text cannot be had or a limit is passed.
  pub load_repo_schema-IsLoad :
      (at : String → Option Directory)
      → IsLoad (populated at migration_dirs)
          (load_repo_schema sqlglot parse is_decimal digest version bounds at cached).0
  unfolding load_repo_schema discover_migration_files
  load_repo_schema-IsLoad at =
      files-IsLoad (populated at migration_dirs) (discover_migration_files bounds at)
        (roots-IsDiscovered bounds (populated at migration_dirs))
