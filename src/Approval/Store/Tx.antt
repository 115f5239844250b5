-- ===== src/Approval/Store/Tx.antt =====
-- A database transaction: it passes its working copy of the tables on, or stops with an error. The
-- services roll back on every error path, so an error leaves no working copy.
use metal_docs.Prelude.{ℕ, String, Bool, Option, none, some}
use metal_docs.Prelude.Tests.{if◌then◌else◌}
use metal_docs.Prelude.Result.{Result, ok, err}
use metal_docs.Approval.Route.{RouteError}
use metal_docs.Approval.Signoff.{SignoffError, DutyError}
use metal_docs.Approval.Instance.{InstanceError}
use metal_docs.Approval.Store.Tables.{Db}

-- The errors that the services return. `database` is a failure of the driver or the server at the
-- numbered call of a service; `no_session` is that of a setting which the transaction has not set.
pub data ServiceError : Type 0 where
  database : ℕ → ServiceError
  no_session not_found null_area : ServiceError
  float_in_payload float_in_form_data : ServiceError
  reason_required : ServiceError
  stale_revision no_active_instance duplicate_submission already_signed : ServiceError
  instance_completed stage_not_active fk_violation check_violation : ServiceError
  instance_not_approved effective_date_in_past invalid_obsolete_source : ServiceError
  capability_denied : String → String → ServiceError
  freeze_not_configured freeze_failed : ServiceError
  route_not_found : ServiceError
  invalid_route : RouteError → ServiceError
  invalid_signoff : SignoffError → ServiceError
  duty : DutyError → ServiceError
  domain : InstanceError → ServiceError

abbrev pub Tx : Type 0 → Type 0
Tx A = Db → Result ServiceError (A × Db)

infixl 5 ◌>>=◌ ◌>>◌
unfoldable pub ◌>>=◌ : {A B : Type 0} → Tx A → (A → Tx B) → Tx B
◌>>=◌ m f db = elim (m db) [ ok (a, db') ↦ f a db' | err e ↦ err e ]

abbrev pub ◌>>◌ : {A B : Type 0} → Tx A → Tx B → Tx B
m >> k = m >>= λ _. k

unfoldable pub pure : {A : Type 0} → A → Tx A
pure a db = ok (a, db)

unfoldable pub fail : {A : Type 0} → ServiceError → Tx A
fail e db = err e

-- Stops with the error when the test holds.
unfoldable pub fail_if : Bool → ServiceError → Tx (Unit {0})
fail_if b e db = if b then err e else ok (tt, db)

-- The value, or the error when there is none.
unfoldable pub or_fail : {A : Type 0} → Option A → ServiceError → Tx A
or_fail none e db = err e
or_fail (some a) e db = ok (a, db)

-- A check whose error stops the transaction.
unfoldable pub passes : {E : Type 0} → Option E → (E → ServiceError) → Tx (Unit {0})
passes none wrap db = ok (tt, db)
passes (some e) wrap db = err (wrap e)

unfoldable pub lift : {E A : Type 0} → (E → ServiceError) → Result E A → Tx A
lift wrap (ok a) db = ok (a, db)
lift wrap (err e) db = err (wrap e)

unfoldable pub select : {A : Type 0} → (Db → A) → Tx A
select f db = ok (f db, db)

-- `BeginTx`, the body and `Commit`; after an error the tables are as they were.
unfoldable pub run_tx : {A : Type 0} → Tx A → Db → Result ServiceError A × Db
run_tx m db = elim (m db) [ ok (a, db') ↦ (ok a, db') | err e ↦ (err e, db) ]
