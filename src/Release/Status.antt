-- ===== src/Release/Status.antt =====
-- status.go of pkg/release/v1.
use mathlib.Core.Bool.{Bool, ◌||◌}
use aws_ecommerce_k8s.Base.Bytes.{Bytes, bytes, str_eq}

-- A status is a string: what is read back from storage need not be one of the constants.
abbrev pub Status : Type 0
Status = Bytes

abbrev pub status_unknown : Status
status_unknown = bytes "unknown"

abbrev pub status_deployed : Status
status_deployed = bytes "deployed"

abbrev pub status_uninstalled : Status
status_uninstalled = bytes "uninstalled"

abbrev pub status_superseded : Status
status_superseded = bytes "superseded"

abbrev pub status_failed : Status
status_failed = bytes "failed"

abbrev pub status_uninstalling : Status
status_uninstalling = bytes "uninstalling"

abbrev pub status_pending_install : Status
status_pending_install = bytes "pending-install"

abbrev pub status_pending_upgrade : Status
status_pending_upgrade = bytes "pending-upgrade"

abbrev pub status_pending_rollback : Status
status_pending_rollback = bytes "pending-rollback"

unfoldable pub is_pending : Status → Bool
unfolding str_eq
is_pending x =
    str_eq x status_pending_install
    || str_eq x status_pending_upgrade
    || str_eq x status_pending_rollback
