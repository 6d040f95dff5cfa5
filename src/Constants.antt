-- ===== src/Constants.antt =====
-- sunbeam_migrate/constants.py: the statuses of a migration.
use sunbeam_migrate.Prelude.{String, Bool, true, false, Option, none, some}

pub data Status : Type 0 where
  in_progress failed completed source_cleanup_failed pending_members pending_cleanup : Status

-- The texts that the database stores.
unfoldable pub status_text : Status → String
status_text Status.in_progress = "in-progress"
status_text Status.failed = "failed"
status_text Status.completed = "completed"
status_text Status.source_cleanup_failed = "source-cleanup-failed"
status_text Status.pending_members = "pending-members"
status_text Status.pending_cleanup = "pending-cleanup"

-- `status in LIST_STATUS_MIGRATED`
abbrev pub list_status_migrated : Status → Bool
list_status_migrated Status.in_progress = false
list_status_migrated Status.failed = false
list_status_migrated Status.completed = true
list_status_migrated Status.source_cleanup_failed = true
list_status_migrated Status.pending_members = true
list_status_migrated Status.pending_cleanup = true

-- The same test on a column that may be null.
abbrev pub is_migrated : Option Status → Bool
is_migrated none = false
is_migrated (some s) = list_status_migrated s

-- `status == STATUS_IN_PROGRESS`
abbrev pub is_in_progress : Option Status → Bool
is_in_progress (some Status.in_progress) = true
is_in_progress _ = false
