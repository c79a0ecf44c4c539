-- ===== src/Examples/Runs.antt =====
-- The theorems on runs and stages at concrete inputs.
use multi_agent_aidlc.Common.{
  ◌≡◌, ◌≤◌, refl, ltb, ◌&&◌, false, none, some, [], ◌∷◌, ok, arith, All, length,
}
use multi_agent_aidlc.Domain.{RunStatus, StageName, ArtifactKind, StageName-discrete}
use multi_agent_aidlc.Storage.Snapshots.{snapshot_kinds, invalidated_kinds}
use multi_agent_aidlc.Storage.Snapshots.Order.{depth, invalidated_kinds-depth, snapshot_kinds-depth}
use multi_agent_aidlc.Storage.Database.State.{Db, StageRow, initialize}
use multi_agent_aidlc.Storage.Database.Runs.{by_name}
use multi_agent_aidlc.Storage.Database.Runs.Creation.{created}
use multi_agent_aidlc.Storage.Database.Runs.Timing.{
  Update, updates, IsTimed, stage_row, start_of, updates-IsTimed, updates-start_of,
}
use multi_agent_aidlc.Storage.Database.Recovery.{is_open, recovery_limit, recover_interrupted_runs}
use multi_agent_aidlc.Storage.Database.Recovery.Complete.{IsWell, recover-none_open}

abbrev one_run : Db
one_run = created 5 "run_1" "An idea" initialize

abbrev intake_starts : Update
intake_starts = record {
  now = 6;
  run_id = "run_1";
  stage = StageName.intake;
  status = RunStatus.running;
  error = none;
}

abbrev intake_ends : Update
intake_ends = record intake_starts { now = 9; status = RunStatus.completed }

abbrev intake_row : StageRow
intake_row = record {
  run_id = "run_1";
  name = StageName.intake;
  status = RunStatus.running;
  started_at = some 6;
  finished_at = none;
  error = none;
}

abbrev started_db : Db
started_db = record initialize { stages = intake_row ∷ [] }

intake_row-IsTimed : IsTimed intake_row
intake_row-IsTimed = record {
  started = λ _. refl;
  waiting = λ e. refl;
  working = λ e. refl;
  closed = λ e. cc e;
}

updates-IsTimed_example : All IsTimed (updates (intake_ends ∷ intake_starts ∷ []) started_db).stages
updates-IsTimed_example =
    updates-IsTimed (intake_ends ∷ intake_starts ∷ []) started_db (intake_row-IsTimed, tt)

intake_started : start_of (stage_row "run_1" StageName.intake started_db) ≡ some 6
unfolding StageName-discrete
intake_started = refl

updates-start_of_example :
    start_of
      (stage_row "run_1" StageName.intake (updates (intake_ends ∷ intake_starts ∷ []) started_db))
    ≡ some 6
updates-start_of_example =
    updates-start_of (intake_ends ∷ intake_starts ∷ []) started_db "run_1" StageName.intake 6
      intake_started

invalidated_kinds-depth_example :
    invalidated_kinds ArtifactKind.code_change ArtifactKind.release_bundle ≡ (
      ltb 0 (depth ArtifactKind.code_change)
      && ltb (depth ArtifactKind.code_change) (depth ArtifactKind.release_bundle))
invalidated_kinds-depth_example =
    invalidated_kinds-depth ArtifactKind.code_change ArtifactKind.release_bundle

snapshot_kinds-depth_example :
    snapshot_kinds ArtifactKind.code_change ≡ ltb 0 (depth ArtifactKind.code_change)
snapshot_kinds-depth_example = snapshot_kinds-depth ArtifactKind.code_change

few_runs : length one_run.runs ≤ recovery_limit
few_runs = omega arith

one_run-IsWell : IsWell one_run
unfolding by_name StageName-discrete
one_run-IsWell = (record { key = refl; stages = _; staged = refl }, tt)

recover-none_open_example :
    (db' : Db) × (recover_interrupted_runs 9 one_run ≡ ok db')
    × All (λ r. is_open r.status ≡ false) db'.runs
recover-none_open_example = recover-none_open 9 one_run one_run-IsWell few_runs
