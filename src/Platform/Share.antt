-- ===== src/Platform/Share.antt =====
-- platform/src/share/mod.rs. A `Handle` has no state of its own: it is the permission to share what the
-- list in the scope takes back when it is dropped.
use libtock_rs.Common.{Run, ◌>>=◌, ◌>>◌, pure}

-- `share::scope`: the list is dropped when the closure has returned. `drop` is its `Drop`, the ones of
-- its parts in their order.
unfoldable pub scope : {W A : Type 0} → Run W (Unit {0}) → Run W A → Run W A
scope drop fcn = do output ← fcn; drop; pure output
