-- ===== src/Approval/Store/Tables.antt =====
-- The tables that the approval engine reads and writes (migrations/0131, 0135 and 0144), as lists of
-- rows. Only columns that the services read or write are kept.
use metal_docs.Prelude.{ℕ, String, Option, none, List}
use metal_docs.Approval.State.{DocState}
use metal_docs.Approval.Route.{Route}
use metal_docs.Approval.Signoff.{Signoff}
use metal_docs.Approval.Instance.{InstanceStatus, StageInstance}

-- `area_code_snapshot` is `process_area_code_snapshot`, and `controlled_area_code` the
-- `process_area_code` of the controlled document that the row is joined with, NULL without one. The
-- last four columns are those that a freeze writes.
pub record Document : Type 0 where
  pub id : String
  pub tenant_id : String
  pub created_by : String
  pub status : DocState
  pub revision_version : ℕ
  pub effective_from : Option ℕ
  pub effective_date : Option ℕ
  pub area_code_snapshot : Option String
  pub controlled_area_code : Option String
  pub values_hash : Option String
  pub values_frozen_at : Option ℕ
  pub final_docx_s3_key : Option String
  pub content_hash : Option String

-- The row without what a freeze writes.
abbrev pub thawed : Document → Document
thawed d = record d {
  values_hash = none;
  values_frozen_at = none;
  final_docx_s3_key = none;
  content_hash = none;
}

-- What a freeze computes: the hash of the values, and the final document with its hash.
pub record FrozenValues : Type 0 where
  pub values_hash : String
  pub final_docx_s3_key : String
  pub content_hash : String

-- How columns give back what was written: `signature_payload` is JSONB and `signed_at` TIMESTAMPTZ.
pub record Columns : Type 0 where
  pub jsonb : String → String
  pub timestamptz : ℕ → ℕ

-- A row of `approval_instances`; its stages stand in a table of their own.
pub record InstanceRow : Type 0 where
  pub id : String
  pub tenant_id : String
  pub document_id : String
  pub route_id : String
  pub route_version_snapshot : ℕ
  pub status : InstanceStatus
  pub submitted_by : String
  pub submitted_at : ℕ
  pub completed_at : Option ℕ
  pub content_hash_at_submit : List ℕ
  pub idempotency_key : String

-- `GovernanceEvent`, without its JSON payload; `Emit` does not store `OccurredAt`.
pub record GovernanceEvent : Type 0 where
  pub tenant_id : String
  pub event_type : String
  pub actor_user_id : String
  pub resource_type : String
  pub resource_id : String
  pub reason : String

pub record Db : Type 0 where
  pub documents : List Document
  pub routes : List Route
  pub instances : List InstanceRow
  pub stages : List StageInstance
  pub signoffs : List Signoff
  pub events : List GovernanceEvent
