-- ===== src/Approval/Tests.antt =====
-- Runs of the models of approval/domain at concrete inputs.
mod Services
use native.Mathlib.Bridge.{le_by_compare, IsLe}
use mathlib.Core.List.{Memᴰ}
use metal_docs.Prelude.{
  ℕ, zero, suc, ◌+◌, ◌^◌, ◌≤◌, ◌<◌, String, ◌≡◌, ◌≢◌, ◌↔◌, ◌⊎◌, inl, inr, refl, Bool, true, false,
  ◌&&◌, ◌||◌, Option, none, some, List, [], ◌∷◌, map, arith,
}
use metal_docs.Prelude.Lists.{All, length}
use metal_docs.Prelude.Text.{ne_of_str}
use metal_docs.Prelude.Int.{ℤ, pos, negsuc}
use metal_docs.Prelude.Result.{Result, ok, err}
use metal_docs.Approval.State.{
  DocState, draft, under_review, approved, published, superseded, to_string, state_from_string,
  state_eq, is_legal_transition, trigger_allows,
}
use metal_docs.Approval.State.Names.{state_from_string_iff}
use metal_docs.Approval.State.Graph.{
  History, is_released, is_authoring, trigger_allows-is_legal_transition, History-is_released,
  release_needs_approval,
}
use metal_docs.Approval.Route.{
  Route, Stage, any_1_of, all_of, m_of_n, reduce_quorum, fail_stage, validate,
}
use metal_docs.Approval.Route.Valid.{IsValid, AreDistinct, validate_iff}
use metal_docs.Approval.Signoff.{
  Signoff, SignoffParams, approve, new_signoff, check_sod, to_lower, is_hex, is_hash,
}
use metal_docs.Approval.Signoff.Duties.{NotSignedBy, check_sod_iff}
use metal_docs.Approval.Signoff.Reload.{IsComplete, new_signoff-IsComplete}
use metal_docs.Approval.Store.Tables.{Columns}
use metal_docs.Approval.Instance.{
  StageInstance, StageStatus, Instance, InstanceStatus, in_progress, active, pending, completed,
  advance_stage, skip_stage, reject_here, cancel, no_active_stage, cannot_skip_last_stage,
  instance_terminal, split_active, activate_next, is_terminal,
}
use metal_docs.Approval.Instance.Shape.{IsRunning, IsDone, waiting}
use metal_docs.Approval.Instance.Progress.{
  Continues, Finishes, advance_stage-IsRunning, skip_stage-IsRunning, advance_times,
  advance_times-approved,
}
use metal_docs.Approval.Instance.Terminal.{
  IsClosed, Refuses, ended-Refuses, reject_here-IsClosed, cancel-advance_stage_approves,
}
use metal_docs.Approval.Quorum.{
  decide_quorum, quorum_pending, approved_stage, rejected_stage, compute_effective_denominator,
}
use metal_docs.Approval.Quorum.Threshold.{
  Grows, m_of_n_iff, m_of_n_stable, all_of-eq-m_of_n, decide_quorum_settles,
}
use metal_docs.Approval.Drift.{DriftResult, itoa, apply_eligibility_drift}
use metal_docs.Approval.Drift.Itoa.{read_from, itoa_reads_back, itoa_reads_back_negative}
use metal_docs.Approval.Drift.Policy.{StillEligible, apply_eligibility_drift-reduce}

state_from_string_iff_example :
    (state_from_string "scheduled" ≡ ok DocState.scheduled)
    ↔ ("scheduled" ≡ to_string DocState.scheduled)
state_from_string_iff_example = state_from_string_iff "scheduled" DocState.scheduled

trigger_allows_example : trigger_allows true under_review draft ≡ (
    state_eq under_review draft
    || is_legal_transition under_review draft
    || (true && state_eq under_review under_review && state_eq draft draft))
trigger_allows_example = trigger_allows-is_legal_transition true under_review draft

retired : History published (superseded ∷ DocState.obsolete ∷ []) DocState.obsolete
unfolding is_legal_transition
retired = History.step refl (History.step refl History.here)

released : History draft (under_review ∷ approved ∷ published ∷ []) published
unfolding is_legal_transition
released = History.step refl (History.step refl (History.step refl History.here))

release_needs_approval_example : Memᴰ approved (under_review ∷ approved ∷ published ∷ [])
release_needs_approval_example = release_needs_approval released refl refl

abbrev pub one_stage : Stage
one_stage = record {
  order = pos 1;
  name = "Quality";
  required_role = "reviewer";
  required_capability = "doc.signoff";
  area_code = "QA";
  quorum = any_1_of;
  quorum_m = none;
  on_eligibility_drift = reduce_quorum;
}

abbrev pub one_route : Route
one_route = record {
  id = "r1";
  tenant_id = "t1";
  profile_code = "P";
  version = 1;
  stages = one_stage ∷ [];
}

validate_iff_example : (validate one_route ≡ none) ↔ IsValid one_route
validate_iff_example = validate_iff one_route

abbrev pub sixty_four : List ℕ
sixty_four = nines 64
  where
    nines : ℕ → List ℕ
    nines zero = []
    nines (suc n) = b'a' ∷ nines n

abbrev first_params : SignoffParams
first_params = record {
  id = "s1";
  approval_instance_id = "i1";
  stage_instance_id = "st1";
  actor_user_id = "ana";
  actor_tenant_id = "t1";
  decision = approve;
  comment = "";
  signed_at = 7;
  signature_method = "password";
  signature_payload = "{}";
  content_hash = sixty_four;
}

abbrev first_signoff : Signoff
first_signoff = record {
  id = "s1";
  approval_instance_id = "i1";
  stage_instance_id = "st1";
  actor_user_id = "ana";
  actor_tenant_id = "t1";
  decision = approve;
  comment = "";
  signed_at = 7;
  signature_method = "password";
  signature_payload = "{}";
  content_hash = sixty_four;
}

built : new_signoff first_params ≡ ok first_signoff
unfolding new_signoff to_lower is_hex is_hash
built = refl

new_signoff-IsComplete_example : IsComplete first_signoff
new_signoff-IsComplete_example = new_signoff-IsComplete first_params first_signoff built

-- Columns that keep one payload and one time.
abbrev coarse : Columns
coarse = record { jsonb = λ payload. "{}"; timestamptz = λ time. 10 }

abbrev pub bob : String
bob = "bob"

abbrev pub eve : String
eve = "eve"

abbrev pub ana : String
ana = "ana"

check_sod_iff_example :
    (check_sod "bob" "eve" (first_signoff ∷ []) ≡ none)
    ↔ ((eve ≢ bob) × NotSignedBy "eve" (first_signoff ∷ []))
check_sod_iff_example = check_sod_iff "bob" "eve" (first_signoff ∷ [])

abbrev a_stage : StageStatus → List String → StageInstance
a_stage status eligible = record {
  id = "st";
  approval_instance_id = "i1";
  stage_order = pos 1;
  name_snapshot = "Quality";
  required_role_snapshot = "reviewer";
  required_capability_snapshot = "doc.signoff";
  area_code_snapshot = "QA";
  quorum_snapshot = any_1_of;
  quorum_m_snapshot = none;
  on_eligibility_drift_snapshot = reduce_quorum;
  eligible_actor_ids = eligible;
  effective_denominator = none;
  status = status;
  opened_at = none;
  completed_at = none;
  skip_reason = "";
}

abbrev an_instance : InstanceStatus → List StageInstance → Instance
an_instance status stages = record {
  id = "i1";
  tenant_id = "t1";
  document_id = "d1";
  route_id = "r1";
  route_version_snapshot = 1;
  status = status;
  submitted_by = "bob";
  submitted_at = 5;
  completed_at = none;
  content_hash_at_submit = [];
  idempotency_key = "k";
  revision_version = 0;
  stages = stages;
}

abbrev two_stages : Instance
two_stages = an_instance in_progress (a_stage active [] ∷ a_stage pending [] ∷ [])

two_stages-IsRunning : IsRunning two_stages.stages
two_stages-IsRunning = record {
  before = [];
  current = a_stage active [];
  after = a_stage pending [] ∷ [];
  split = refl;
  before_done = tt;
  current_active = refl;
  after_waiting = (refl, tt);
}

advance_stage-IsRunning_example :
    (next : Instance) × (advance_stage 9 two_stages ≡ ok next)
    × (Continues two_stages next ⊎ Finishes two_stages next)
advance_stage-IsRunning_example = advance_stage-IsRunning 9 two_stages two_stages-IsRunning refl

advance_times-approved_example :
    (last : Instance) × (advance_times (suc (waiting two_stages.stages)) 9 two_stages ≡ ok last)
    × (last.status ≡ InstanceStatus.approved)
    × All IsDone last.stages
advance_times-approved_example = advance_times-approved 9 two_stages two_stages-IsRunning refl

reject_here-IsClosed_example :
    (next : Instance) × (reject_here 9 "no" two_stages ≡ ok next)
    × (next.status ≡ InstanceStatus.rejected)
    × IsClosed next
reject_here-IsClosed_example = reject_here-IsClosed 9 "no" two_stages two_stages-IsRunning

abbrev last_stage : Instance
last_stage = an_instance in_progress (a_stage active [] ∷ [])

abbrev last_stage-IsRunning : IsRunning last_stage.stages
last_stage-IsRunning = record {
  before = [];
  current = a_stage active [];
  after = [];
  split = refl;
  before_done = tt;
  current_active = refl;
  after_waiting = tt;
}

abbrev completed_last : Instance
completed_last = record last_stage {
  stages = record (a_stage active []) { status = completed; completed_at = some 9 } ∷ [];
  status = InstanceStatus.approved;
  completed_at = some 9;
}

last_completes : advance_stage 9 last_stage ≡ ok completed_last
unfolding advance_stage split_active activate_next
last_completes = refl

ended-Refuses_example : Refuses 10 "late" completed_last
ended-Refuses_example =
    ended-Refuses 9 10 "no" "late" last_stage completed_last last_stage-IsRunning refl
      (inr (last_completes, refl))

cancel-advance_stage_example :
    (stopped last : Instance) × (cancel 9 last_stage ≡ ok stopped)
    × (stopped.status ≡ InstanceStatus.cancelled)
    × (advance_stage 9 stopped ≡ ok last)
    × (last.status ≡ InstanceStatus.approved)
cancel-advance_stage_example =
    cancel-advance_stage_approves 9 last_stage last_stage-IsRunning refl refl

m_of_n_iff_example :
    ((decide_quorum m_of_n (some (pos 2)) 1 1 3 ≡ approved_stage)
      ↔ ((a' r' : ℕ) → Grows 3 1 1 a' r' → 2 ≤ a'))
    × ((decide_quorum m_of_n (some (pos 2)) 1 1 3 ≡ rejected_stage)
        ↔ ((a' r' : ℕ) → Grows 3 1 1 a' r' → a' < 2))
m_of_n_iff_example = m_of_n_iff 3 2 1 1 (omega arith) (omega arith) (omega arith)

decided : decide_quorum m_of_n (some (pos 2)) 2 0 3 ≢ quorum_pending
unfolding decide_quorum
decided h = cc

decide_quorum_settles_example :
    (decide_quorum any_1_of (some (pos 9)) 2 1 3 ≢ quorum_pending)
    × (decide_quorum all_of (some (pos 9)) 2 1 3 ≢ quorum_pending)
    × (decide_quorum m_of_n (some (pos 2)) 2 1 3 ≢ quorum_pending)
decide_quorum_settles_example =
    decide_quorum_settles (some (pos 9)) 2 2 1 3 (omega arith) (omega arith) refl

abbrev shared_stage : StageInstance
shared_stage = a_stage active ("ana" ∷ "eve" ∷ [])

ana_is_not_eve : ana ≢ eve
ana_is_not_eve = ne_of_str "ana" "eve" refl

two-AreDistinct : AreDistinct ("ana" ∷ "eve" ∷ [])
two-AreDistinct = ((ana_is_not_eve, tt), (tt, tt))

apply_eligibility_drift-reduce_example :
    (res : DriftResult) × (apply_eligibility_drift shared_stage ("eve" ∷ []) ≡ some res)
    × (res.effective_denominator ≡ compute_effective_denominator shared_stage ("eve" ∷ []))
    × (res.effective_denominator ≤ length shared_stage.eligible_actor_ids)
    × (res.forced_outcome ≡ quorum_pending)
unfolding IsLe
apply_eligibility_drift-reduce_example =
    apply_eligibility_drift-reduce shared_stage ("eve" ∷ []) refl (le_by_compare 3 (2 ^ 63) tt)
      two-AreDistinct (tt, tt)
