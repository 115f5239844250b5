-- ===== src/Editor/Tests.antt =====
-- One document from its creation to a commit, a checkpoint and a restore, and what the theorems say
-- of it.
pub mod Creations
pub mod Services
use metal_docs.Prelude.{
  ℕ, zero, suc, String, ◌≡◌, refl, ◌≢◌, Bool, true, false, Option, none, some, List, [], ◌∷◌, ◌++◌,
}
use metal_docs.Prelude.Lists.{count_if}
use metal_docs.Prelude.Tests.{if◌then◌else◌, ◌==◌}
use metal_docs.Prelude.Result.{Result, ok, err}
use metal_docs.Prelude.Sql.{
  Env, no_rows, ◌>>=◌, pure, fail_if, or_fail, query, exec, write, bracket, autocommit, settle,
  follow,
}
use metal_docs.Editor.Tables.{
  Document, Tables, Revision, PendingUpload, EditorError, Session, active,
}
use metal_docs.Editor.Documents.{
  insert_session, insert_revision, create_document, set_revision_storage_key, get_document,
  update_document_status,
}
use metal_docs.Editor.Sessions.{
  Acquired, taken, held_session, acquire_session, take_or_refresh, open_session, refresh_session,
  release_session, force_release_session, expire_stale_sessions, points_to_stale, is_stale,
}
use metal_docs.Editor.Uploads.{
  CommitResult, presign_reserve, reserve_upload, commit_upload, commit_or_replay, commit_fresh,
  advance_head, replay_upload, get_pending_for_commit,
}
use metal_docs.Editor.Checkpoints.{
  RestoreResult, create_checkpoint, restore_checkpoint, restore_revision,
}
use metal_docs.Editor.System.{
  Call, releases, force_releases, creates, presigns, commits, checkpoints, restores, perform,
  perform_all, in_transaction, at_once,
}
use metal_docs.Editor.Invariant.{IsConsistent}
use metal_docs.Editor.Invariant.Calls.{perform_all-IsConsistent}
use metal_docs.Editor.Commits.{IsNextRevision, commit_upload-IsNextRevision, commit_upload-again}
use metal_docs.Editor.History.{Grows, perform_all-Grows}
use metal_docs.Editor.Restores.{restore_checkpoint-idempotent}
use metal_docs.Editor.Leases.{
  Lease, refused, Outcome, outcome_of, leases, acquire, release, force_release, expire,
  AreExclusive,
}
use metal_docs.Editor.Leases.Refines.{acquire_session-acquire, release_session-release}
use metal_docs.Editor.Leases.Exclusive.{perform_all-AreExclusive}
use metal_docs.Editor.Leases.Sweeps.{expire_stale_sessions-expire}

abbrev empty : Tables
empty = record {
  documents = [];
  sessions = [];
  revisions = [];
  pending_uploads = [];
  checkpoints = [];
  comments = [];
  next_revision_num = 1;
}

-- The identifiers that a call can generate.
abbrev ids : String → String → String → ℕ → String
ids a b c zero = a
ids a b c (suc zero) = b
ids a b c (suc (suc _)) = c

abbrev pub at_time : ℕ → String → String → String → Env
at_time now a b c = record { now = now; uuid = ids a b c; fails = λ _. false }

abbrev pub manual : Document
manual = record {
  id = "";
  tenant_id = "acme";
  template_version_id = "tv";
  name = "manual";
  status = "draft";
  form_data_json = "{}";
  current_revision_id = none;
  active_session_id = none;
  finalized_at = none;
  archived_at = none;
  created_at = 0;
  updated_at = 0;
  created_by = "ana";
  controlled_document_id = some "cd";
  profile_code_snapshot = some "po";
  process_area_code_snapshot = some "qa";
}

abbrev to_upload : List (Env × Call)
to_upload =
    (at_time 10 "d1" "s1" "r1", creates manual "h1")
    ∷ (at_time 20 "p1" "" "", presigns "s1" "ana" "d1" "r1" "h2" "k2" 900)
    ∷ []

abbrev pub uploaded : Tables
uploaded = perform_all to_upload empty

abbrev commit_call : Env × Call
commit_call = (at_time 30 "r2" "" "", commits "s1" "ana" "d1" "p1" "h2" "{1}")

-- A checkpoint of the first revision, and then the commit of the second one.
abbrev to_restore : List (Env × Call)
to_restore =
    to_upload ++ ((at_time 25 "c1" "" "", checkpoints "d1" "ana" "first") ∷ commit_call ∷ [])

abbrev ready : Tables
ready = perform_all to_restore empty

abbrev pub after_commit : Tables
after_commit = perform (commit_call.0) (commit_call.1) uploaded

empty-IsConsistent : IsConsistent empty
empty-IsConsistent = record {
  documents = tt;
  sessions = tt;
  bound = tt;
  rooted = tt;
  kept = tt;
  agreed = tt;
}

perform_all-IsConsistent_example : IsConsistent uploaded
perform_all-IsConsistent_example = perform_all-IsConsistent to_upload empty empty-IsConsistent

ready-IsConsistent : IsConsistent ready
ready-IsConsistent = perform_all-IsConsistent to_restore empty empty-IsConsistent

perform_all-Grows_example :
    Grows uploaded.revisions (perform_all (commit_call ∷ []) uploaded).revisions
perform_all-Grows_example = perform_all-Grows (commit_call ∷ []) uploaded

abbrev pub second : CommitResult
second = record { revision_id = "r2"; revision_num = 2; already_consumed = false }

commit_runs :
    commit_upload (at_time 30 "r2" "" "") "s1" "ana" "d1" "p1" "h2" "{1}" uploaded
    ≡ ok (second, after_commit)
unfolding perform_all perform in_transaction at_once autocommit bracket settle ◌>>=◌ pure fail_if
    or_fail query exec write create_document insert_session insert_revision presign_reserve
    reserve_upload commit_upload commit_or_replay commit_fresh advance_head
commit_runs = refl

commit_upload-IsNextRevision_example :
    (r : Revision) × (second.revision_id ≡ r.id)
    × (r.content_hash ≡ "h2")
    × IsNextRevision "d1" "s1" uploaded after_commit r
commit_upload-IsNextRevision_example =
    commit_upload-IsNextRevision (at_time 30 "r2" "" "") "s1" "ana" "d1" "p1" "h2" "{1}" uploaded
      (perform_all-IsConsistent to_upload empty empty-IsConsistent) commit_runs refl

commit_upload-again_example :
    commit_upload (at_time 5000 "r9" "" "") "s1" "bob" "d1" "p1" "other" "{9}" after_commit
    ≡ ok (record second { already_consumed = true }, after_commit)
commit_upload-again_example =
    commit_upload-again (at_time 30 "r2" "" "") (at_time 5000 "r9" "" "") "s1" "ana" "bob" "d1" "p1"
      "h2" "other" "{1}" "{9}" uploaded refl refl commit_runs

-- The restore of the first checkpoint, while the second revision is the head.
abbrev after_restore : Tables
after_restore = record ready { next_revision_num = 4 }

restore_runs :
    restore_checkpoint (at_time 40 "r3" "" "") "d1" "ana" 1 ready
    ≡ ok (
      record {
        new_revision_id = "r1";
        new_revision_num = 1;
        checkpoint_rev_id = "r1";
        idempotent = true;
      },
      record ready { next_revision_num = 4 },
    )
unfolding perform_all perform in_transaction at_once autocommit bracket settle ◌>>=◌ pure fail_if
    or_fail query exec write create_document insert_session insert_revision presign_reserve
    reserve_upload commit_upload commit_or_replay commit_fresh advance_head create_checkpoint
    restore_checkpoint restore_revision
restore_runs = refl

restore_checkpoint-idempotent_example :
    (true ≡ true)
    × (after_restore.documents ≡ ready.documents)
    × (after_restore.sessions ≡ ready.sessions)
    × (after_restore.revisions ≡ ready.revisions)
restore_checkpoint-idempotent_example =
    restore_checkpoint-idempotent (at_time 40 "r3" "" "") "d1" "ana" 1 ready ready-IsConsistent
      restore_runs

-- Another user meets the lease that the creator holds.
acquire_runs :
    acquire_session (at_time 50 "s2" "" "") "acme" "d1" "bob" uploaded
    ≡ ok (
      taken (
          held_session
            (record {
              id = "s1";
              document_id = "d1";
              user_id = "ana";
              acquired_at = 10;
              expires_at = 310;
              released_at = none;
              last_acknowledged_revision_id = "r1";
              status = active;
            })
            "d1"
            0
            ""),
      uploaded,
    )
unfolding perform_all perform in_transaction at_once autocommit bracket settle ◌>>=◌ pure fail_if
    or_fail query exec write create_document insert_session insert_revision presign_reserve
    reserve_upload acquire_session take_or_refresh
acquire_runs = refl

acquire_session-acquire_example :
    ◌≡◌ {A = Outcome × List Lease}
      (refused "s1" "ana", leases uploaded)
      (acquire 50 "s2" "d1" "bob" (leases uploaded))
acquire_session-acquire_example =
    acquire_session-acquire (at_time 50 "s2" "" "") "acme" "d1" "bob" uploaded acquire_runs

abbrev released_tables : Tables
released_tables = perform (at_time 60 "" "" "") (releases "s1" "ana") uploaded

abbrev forced_tables : Tables
forced_tables = perform (at_time 70 "" "" "") (force_releases "s1") uploaded

release_runs : release_session (at_time 60 "" "" "") "s1" "ana" uploaded ≡ ok (tt, released_tables)
unfolding perform_all perform in_transaction at_once autocommit bracket settle ◌>>=◌ pure fail_if
    or_fail query exec write create_document insert_session insert_revision presign_reserve
    reserve_upload release_session
release_runs = refl

force_runs : force_release_session (at_time 70 "" "" "") "s1" uploaded ≡ ok (tt, forced_tables)
unfolding perform_all perform in_transaction at_once autocommit bracket settle ◌>>=◌ pure fail_if
    or_fail query exec write create_document insert_session insert_revision presign_reserve
    reserve_upload force_release_session
force_runs = refl

release_session-release_example :
    (leases released_tables ≡ release "s1" "ana" (leases uploaded))
    × (leases forced_tables ≡ force_release "s1" (leases uploaded))
release_session-release_example =
    release_session-release (at_time 60 "" "" "") (at_time 70 "" "" "") "s1" "ana" uploaded
      release_runs force_runs

empty-AreExclusive : AreExclusive (leases empty)
unfolding AreExclusive
empty-AreExclusive = tt

perform_all-AreExclusive_example : AreExclusive (leases ready)
perform_all-AreExclusive_example = perform_all-AreExclusive to_restore empty empty-AreExclusive

expire_stale_sessions-expire_example :
    (leases (expire_stale_sessions (at_time 100 "" "" "") 100 uploaded).1
      ≡ expire 100 (leases uploaded))
    × ((expire_stale_sessions (at_time 100 "" "" "") 100 uploaded).0 ≡ (
        if count_if (points_to_stale 100 uploaded) uploaded.documents == 0
        then err no_rows
        else ok (count_if (is_stale 100) uploaded.sessions)))
expire_stale_sessions-expire_example =
    expire_stale_sessions-expire (at_time 100 "" "" "") 100 uploaded refl
