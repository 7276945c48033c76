-- ===== src/Csv/Commands.antt =====
-- backends/csv/backend.go: the backend's root, its one command, and the end of a write. The buffered writer
-- and the file are known by what flushing and syncing them answer.
use frames.Base.{
  String, Option, none, some, Error, Result, ok, err, ◌>>◌, join, str_eq, if◌then◌else◌,
}
use frames.Config.{BackendConfig}

-- Backend
pub record Backend : Type 0 where
  pub root_dir : String

-- NewBackend
unfoldable pub new_backend : BackendConfig → Backend
new_backend cfg = record { root_dir = cfg.root_dir }

-- csvPath
unfoldable pub csv_path : Backend → String → String
csv_path b table = join b.root_dir (join "/" table)

-- Exec
unfoldable pub exec : (to_lower : String → String) → String → Result (Unit {0})
exec to_lower command =
    if str_eq (to_lower command) "ping" then ok tt else err Error.unknown_command

abbrev pub synced : Option (Result (Unit {0})) → Result (Unit {0})
synced none = ok tt
synced (some r) = r

-- WaitForComplete: the error of the buffered writer after its flush, and Sync of a writer that has it.
unfoldable pub wait_for_complete :
    (flushed : Result (Unit {0})) → (sync : Option (Result (Unit {0}))) → Result (Unit {0})
wait_for_complete flushed sync = flushed >> synced sync
