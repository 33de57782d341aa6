-- ===== src/Migration/Main.antt =====
-- main of src/cli/migrate-local-storage.ts, from the arguments to the exit code.
use fetchit_be.Base.{
  ℕ, Bool, true, false, not, Option, none, some, List, ◌&&◌, ◌||◌, any_where, filter_where,
  if◌then◌else◌,
}
use fetchit_be.Texts.{Text, codes, text_eq, has_text, is_empty}
use fetchit_be.Storage.Settings.{Env, Driver, refine}
use fetchit_be.Storage.Provider.{neon_provider}
use fetchit_be.Migration.Walk.{Entries, list_local_keys}
use fetchit_be.Migration.Run.{Remote, MigrationResult, Call, Options, migrate_local_storage}

-- `driver === 'neon'`
abbrev pub is_neon : Driver → Bool
is_neon Driver.neon = true
is_neon _ = false

abbrev pub is_known : Text → Bool
is_known arg = text_eq arg (codes "--dry-run") || text_eq arg (codes "--only-if-neon")

-- A literal `--` is no argument.
abbrev pub arguments : List Text → List Text
arguments argv = filter_where (λ arg. not (text_eq arg (codes "--"))) argv

abbrev pub dry_run : List Text → Bool
dry_run argv = has_text (codes "--dry-run") (arguments argv)

-- What is left when the process exits.
pub record Exit : Type 0 where
  pub code : ℕ
  pub remote : Remote
  pub result : Option MigrationResult

abbrev pub without_result : ℕ → Remote → Exit
without_result code remote = record { code = code; remote = remote; result = none }

abbrev pub has_no_failure : MigrationResult → Bool
has_no_failure r = is_empty r.failed && is_empty r.conflicts

-- `valid` is whether the settings that are not about storage are valid; a root that does not exist
-- is none.
module _ (env : Env) (valid : Bool) (root : Option (Option Entries)) (fails : Call → Text → Bool)
    (like : Text → Text → Bool) where
  abbrev pub options : Bool → Options
  options dry = record { provider = neon_provider env; dry_run = dry; fails = fails; like = like }

  unfoldable pub run : Bool → Remote → Exit
  unfolding migrate_local_storage list_local_keys
  run dry remote = elim root [
    | none ↦ without_result 0 remote
    | some entries ↦
        let done = migrate_local_storage (options dry) (list_local_keys entries) remote in
        record {
          code = if has_no_failure done.result then 0 else 1;
          remote = done.remote;
          result = some done.result;
        }
  ]

  unfoldable pub main : List Text → Remote → Exit
  unfolding run
  main argv remote =
      let rest = run (dry_run argv) remote in
      if any_where (λ arg. not (is_known arg)) (arguments argv)
      then without_result 2 remote
      else if not (is_empty (refine env) && valid)
      then without_result 1 remote
      else if is_neon env.storage_driver
      then rest
      else if has_text (codes "--only-if-neon") (arguments argv)
      then without_result 0 remote
      else without_result 1 remote
