-- ===== src/Tests/Migrations.antt =====
-- Tests of postgres/migrate.go.
use hookbound.Base.{
  true, false, ◌≡◌, refl, none, some, List, [], ◌∷◌, ◌++◌, Text, codes, valid_utf8, text_eq,
  trim_space, has_prefix,
}
use hookbound.Base.Table.{lookup}
use hookbound.Postgres.Canonical.{sorted_by_name}
use hookbound.Errors.{Result, ok, foreign, err}
use hookbound.Postgres.Migrate.{
  File, Server, Database, migration_checksum, migration_files, migrate_with_config,
}
use hookbound.Postgres.Migrate.Laws.{AllRecorded, migrate_with_config-again}
use hookbound.Tests.Store.{hash}

abbrev lower : Text → Text
lower s = s

abbrev file : Text → File
file contents = record { is_dir = false; contents = ok contents }

abbrev listing : Result (List (Text × File))
listing = ok (
    (codes "2.sql", file (codes "b"))
    ∷ (codes "README", file (codes "r"))
    ∷ (codes "1.sql", file (codes "-- hookbound:statement\n a;\n-- hookbound:statement\nc;"))
    ∷ [])

-- A server that keeps the statements it ran.
abbrev logging : Server (List Text)
logging = record { call = λ c. ok tt; execute = λ statement log. ok (log ++ statement ∷ []) }

-- A server on which every statement of a migration fails.
abbrev refusing : Server (List Text)
refusing = record { call = λ c. ok tt; execute = λ statement log. err foreign }

abbrev fresh : Database (List Text)
fresh = record { has_schema = false; ledger = none; tables = [] }

abbrev migrated : Database (List Text)
migrated = record {
  has_schema = true;
  ledger = some (
      (codes "2.sql", migration_checksum hash (codes "b"))
      ∷ (
        codes "1.sql",
        migration_checksum hash (codes "-- hookbound:statement\n a;\n-- hookbound:statement\nc;"),
      )
      ∷ []);
  tables = codes "a;" ∷ codes "c;" ∷ codes "b" ∷ [];
}

first_run : migrate_with_config hash lower logging true [] listing fresh ≡ (migrated, ok tt)
unfolding migrate_with_config valid_utf8 text_eq trim_space has_prefix sorted_by_name lookup
first_run = refl

rolled_back : migrate_with_config hash lower refusing true [] listing fresh ≡ (fresh, err foreign)
unfolding migrate_with_config valid_utf8 text_eq trim_space has_prefix sorted_by_name lookup
rolled_back = refl

changed_file :
    migrate_with_config hash lower logging true []
      (ok ((codes "1.sql", file (codes "other")) ∷ []))
      migrated
    ≡ (migrated, err foreign)
unfolding migrate_with_config valid_utf8 text_eq trim_space has_prefix sorted_by_name lookup
    migration_checksum
changed_file = refl

migrate_with_config-again_example :
    ((files : List (Text × File)) × (migration_files lower true [] listing ≡ ok files)
      × AllRecorded hash files migrated)
    × (migrate_with_config hash lower refusing true [] listing migrated ≡ (migrated, ok tt))
unfolding migrate_with_config valid_utf8 text_eq trim_space has_prefix sorted_by_name lookup
migrate_with_config-again_example =
    migrate_with_config-again hash lower logging refusing true [] listing fresh (λ c. refl) refl
