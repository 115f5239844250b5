-- ===== src/Approval/Store/Signing.antt =====
-- The statements on `approval_signoffs` (approval/repository/postgres_approval_repository.go and
-- approval/application/decision_service.go), with its constraints and triggers (migrations/0135).
use metal_docs.Prelude.{
  String, Bool, true, false, not, ◌&&◌, Option, none, some, List, [], ◌∷◌, ◌++◌,
}
use metal_docs.Prelude.Text.{str_eq}
use metal_docs.Prelude.Lists.{any, keep_if, find_if}
use metal_docs.Prelude.Result.{Result, ok, err}
use metal_docs.Approval.Signoff.{Signoff, SignoffError, new_signoff}
use metal_docs.Approval.Signoff.Reload.{params_of}
use metal_docs.Approval.Store.Tables.{Document, InstanceRow, Columns}
use metal_docs.Approval.Store.Tx.{
  already_signed, check_violation, invalid_signoff, Tx, ◌>>=◌, ◌>>◌, pure, fail_if, lift, select,
}
use metal_docs.Approval.Store.Repository.{decision_eq, bytes_eq, owned_by, write_signoffs}

-- `scanSignoffs`: every row goes through `NewSignoff` again.
unfoldable pub scan_signoffs : List Signoff → Result SignoffError (List Signoff)
scan_signoffs [] = ok []
scan_signoffs (row ∷ rows) = elim (new_signoff (params_of row)) [
  | err e ↦ err e
  | ok s ↦ elim (scan_signoffs rows) [ err e ↦ err e | ok rest ↦ ok (s ∷ rest) ]
]

-- The WHERE of `loadPriorSignoffs`: the rows of the instance's other stages. (Their order by
-- `signed_at` is not kept: what is done with them does not depend on it.)
abbrev pub is_prior : String → String → String → Signoff → Bool
is_prior tenant_id instance_id active_stage_id s =
    str_eq s.approval_instance_id instance_id
    && not (str_eq s.stage_instance_id active_stage_id)
    && str_eq s.actor_tenant_id tenant_id

unfoldable pub load_prior_signoffs : String → String → String → Tx (List Signoff)
load_prior_signoffs tenant_id instance_id active_stage_id = do
  rows ← select (λ db. keep_if (is_prior tenant_id instance_id active_stage_id) db.signoffs)
  lift invalid_signoff (scan_signoffs rows)

unfoldable pub load_stage_signoffs : String → Tx (List Signoff)
load_stage_signoffs stage_id = do
  rows ← select (λ db. keep_if (λ (s : Signoff). str_eq s.stage_instance_id stage_id) db.signoffs)
  lift invalid_signoff (scan_signoffs rows)

-- UNIQUE (approval_instance_id, actor_user_id)
abbrev pub same_signer : Signoff → Signoff → Bool
same_signer s row =
    str_eq row.approval_instance_id s.approval_instance_id
    && str_eq row.actor_user_id s.actor_user_id

-- The author that the trigger enforce_signoff_sod looks up: the creator of the instance's document.
abbrev pub authored_by : String → String → List InstanceRow → List Document → Bool
authored_by actor instance_id instances documents =
    any
      (λ (r : InstanceRow).
        str_eq r.id instance_id
        && any (λ (d : Document). str_eq d.id r.document_id && str_eq d.created_by actor) documents)
      instances

-- The row of a signoff.
abbrev pub stored : Columns → Signoff → Signoff
stored columns s = record s {
  signed_at = columns.timestamptz s.signed_at;
  signature_payload = columns.jsonb s.signature_payload;
}

-- What `InsertSignoff` does with the row that holds the key, if there is one.
unfoldable pub insert_or_compare : Columns → Signoff → Option Signoff → List Signoff → Tx Bool
insert_or_compare columns s none rows = do
  write_signoffs (rows ++ (stored columns s ∷ []))
  pure false
insert_or_compare columns s (some row) rows = do
  old ← lift invalid_signoff (new_signoff (params_of row))
  fail_if
      (not (
        str_eq old.stage_instance_id s.stage_instance_id
        && decision_eq old.decision s.decision
        && bytes_eq old.content_hash s.content_hash))
      already_signed
  pure true

-- `InsertSignoff`: the triggers on the tenant and on the author, then INSERT … ON CONFLICT DO
-- NOTHING. On a conflict `LoadSignoffByActor` reads the row that is there, and the call is a replay
-- (`true`) if stage, decision and content hash agree. A fresh row gives `false`.
unfoldable pub insert_signoff : Columns → Signoff → Tx Bool
insert_signoff columns s = do
  instances ← select (λ db. db.instances)
  documents ← select (λ db. db.documents)
  fail_if (not (owned_by s.actor_tenant_id s.approval_instance_id instances)) check_violation
  fail_if (authored_by s.actor_user_id s.approval_instance_id instances documents) check_violation
  rows ← select (λ db. db.signoffs)
  insert_or_compare columns s (find_if (same_signer s) rows) rows
