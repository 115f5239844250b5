-- ===== src/Approval/Service/Freeze.antt =====
-- The freeze of a document in the transaction of its approval: FreezeService.Freeze
-- (documents_v2/application/freeze_service.go) with the statements of
-- documents_v2/repository/snapshot_repository.go. What it computes from the placeholders, the
-- resolvers and the fanout is a parameter.
use metal_docs.Prelude.{ℕ, String, false, Option, none, some}
use metal_docs.Prelude.Lists.{find_if}
use metal_docs.Approval.Store.Tables.{Document, FrozenValues}
use metal_docs.Approval.Store.Tx.{
  freeze_not_configured, freeze_failed, Tx, ◌>>=◌, ◌>>◌, pure, fail, or_fail, select,
}
use metal_docs.Approval.Store.Repository.{update_documents}
use metal_docs.Approval.Service.{Env, call, is_doc}

abbrev pub set_frozen : ℕ → FrozenValues → Document → Document
set_frozen now values d = record d {
  values_hash = some values.values_hash;
  values_frozen_at = some now;
}

abbrev pub set_final_docx : FrozenValues → Document → Document
set_final_docx values d = record d {
  final_docx_s3_key = some values.final_docx_s3_key;
  content_hash = some values.content_hash;
}

-- `WriteFreeze`
unfoldable pub write_freeze : ℕ → String → String → FrozenValues → Tx ℕ
write_freeze now tenant_id document_id values =
    update_documents false (is_doc tenant_id document_id) (set_frozen now values)

-- `WriteFinalDocx`
unfoldable pub write_final_docx : String → String → FrozenValues → Tx ℕ
write_final_docx tenant_id document_id values =
    update_documents false (is_doc tenant_id document_id) (set_final_docx values)

-- A document that is frozen already stays as it is.
unfoldable pub freeze_values :
    Env → (String → String → Option FrozenValues) → String → String → Option ℕ → Tx (Unit {0})
freeze_values env freeze tenant_id document_id (some frozen_at) = pure tt
freeze_values env freeze tenant_id document_id none = do
  values ← or_fail (freeze tenant_id document_id) freeze_failed
  call env 14 (write_freeze env.now tenant_id document_id values)
  call env 15 (write_final_docx tenant_id document_id values)
  pure tt

-- `Freeze`, by the invoker that is configured. It reads the document first.
unfoldable pub run_freeze :
    Env → Option (String → String → Option FrozenValues) → String → String → Tx (Unit {0})
run_freeze env none tenant_id document_id = fail freeze_not_configured
run_freeze env (some freeze) tenant_id document_id = do
  found ← call env 13 (select (λ db. find_if (is_doc tenant_id document_id) db.documents))
  d ← or_fail found freeze_failed
  freeze_values env freeze tenant_id document_id d.values_frozen_at
