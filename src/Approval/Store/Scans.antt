-- ===== src/Approval/Store/Scans.antt =====
-- Reading signoffs back (approval/application/decision_service.go, scanSignoffs) from the columns of
-- migrations/0135.
use metal_docs.Prelude.{◌<◌, ◌≡◌}
use metal_docs.Prelude.Result.{ok}
use metal_docs.Approval.Signoff.{Signoff, SignoffParams, new_signoff}
use metal_docs.Approval.Store.Tables.{Columns}

-- `NewSignoff` has built the signoff, and the column of its time does not make it the zero time.
pub record IsBuilt (columns : Columns) (s : Signoff) : Type 0 where
  pub params : SignoffParams
  pub built : new_signoff params ≡ ok s
  pub dated : 0 < columns.timestamptz s.signed_at
