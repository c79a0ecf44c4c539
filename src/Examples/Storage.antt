-- ===== src/Examples/Storage.antt =====
-- The theorems on the store at concrete inputs.
use multi_agent_aidlc.Common.{
  String, ◌≡◌, ◌≤◌, ◌≢◌, ne_of_beq, string_eq, ◌&&◌, refl, true, false, some, [], ◌∷◌, ok, arith,
}
use multi_agent_aidlc.Domain.{ArtifactKind, ArtifactKind-discrete}
use multi_agent_aidlc.Storage.Snapshots.{snapshot_kinds, invalidated_kinds}
use multi_agent_aidlc.Storage.Database.State.{Db, initialize}
use multi_agent_aidlc.Storage.Database.Index.{insert_artifact, get_artifact, replaced}
use multi_agent_aidlc.Storage.Database.Index.Slots.{
  slot_size, insert_artifact-slot_size, insert_artifact-get_artifact,
  insert_artifact-get_artifact_other,
}
use multi_agent_aidlc.Storage.Database.Index.Pipeline.{IsPipelined, insert_artifact-IsPipelined}
use multi_agent_aidlc.Storage.Database.Runs.{get_run, create_run}
use multi_agent_aidlc.Storage.Database.Runs.Creation.{
  IsFresh, pending_run, created, create_run-get_run, create_run-get_run_other,
}
use multi_agent_aidlc.Examples.Data.{brief, spec, new_brief, waiting_db, indexed_db}

abbrev two_db : Db
two_db = record waiting_db { artifacts = brief ∷ spec ∷ [] }

abbrev rewritten_db : Db
rewritten_db = record waiting_db { artifacts = new_brief ∷ [] }

-- A new brief replaces the old one and makes the requirements stale.
insert_new_brief : insert_artifact new_brief two_db ≡ ok rewritten_db
unfolding insert_artifact invalidated_kinds ArtifactKind-discrete
insert_new_brief = refl

insert_spec : insert_artifact spec indexed_db ≡ ok two_db
unfolding insert_artifact invalidated_kinds ArtifactKind-discrete
insert_spec = refl

spec_known : snapshot_kinds spec.metadata.kind ≡ true
unfolding snapshot_kinds ArtifactKind-discrete
spec_known = refl

insert_artifact-IsPipelined_example : IsPipelined "run_1" two_db
insert_artifact-IsPipelined_example =
    insert_artifact-IsPipelined spec "run_1" indexed_db (λ _. spec_known) insert_spec (tt, tt)

one_brief : slot_size "run_1" ArtifactKind.project_brief "intake-agent" two_db ≤ 1
unfolding ArtifactKind-discrete
one_brief = omega arith

insert_artifact-slot_size_example :
    slot_size "run_1" ArtifactKind.project_brief "intake-agent" rewritten_db ≤ 1
insert_artifact-slot_size_example =
    insert_artifact-slot_size "run_1" ArtifactKind.project_brief "intake-agent" new_brief two_db
      insert_new_brief one_brief

insert_artifact-get_artifact_example : get_artifact "art_2" two_db ≡ some spec
insert_artifact-get_artifact_example = insert_artifact-get_artifact spec indexed_db insert_spec

found_brief : get_artifact "art_1" indexed_db ≡ some brief
unfolding get_artifact
found_brief = refl

brief_stays : (spec.metadata.current_snapshot && replaced spec.metadata brief) ≡ false
unfolding invalidated_kinds ArtifactKind-discrete
brief_stays = refl

insert_artifact-get_artifact_other_example : get_artifact "art_1" two_db ≡ some brief
insert_artifact-get_artifact_other_example =
    insert_artifact-get_artifact_other spec brief indexed_db insert_spec found_brief brief_stays

run_1-IsFresh : IsFresh "run_1" initialize
run_1-IsFresh = (refl, refl)

create_run-get_run_example :
    (create_run 5 "run_1" "An idea" initialize
      ≡ ok (pending_run 5 "run_1" "An idea", created 5 "run_1" "An idea" initialize))
    × (get_run "run_1" (created 5 "run_1" "An idea" initialize)
        ≡ ok (some (pending_run 5 "run_1" "An idea")))
create_run-get_run_example = create_run-get_run 5 "run_1" "An idea" initialize run_1-IsFresh

abbrev one_run : Db
one_run = created 5 "run_1" "An idea" initialize

run_2-IsFresh : IsFresh "run_2" one_run
run_2-IsFresh = (refl, refl)

abbrev run_1_id : String
run_1_id = "run_1"

abbrev run_2_id : String
run_2_id = "run_2"

run_2_not_run_1 : run_2_id ≢ run_1_id
run_2_not_run_1 = ne_of_beq run_2_id run_1_id refl

create_run_2 :
    create_run 7 "run_2" "Another" one_run
    ≡ ok (pending_run 7 "run_2" "Another", created 7 "run_2" "Another" one_run)
create_run_2 = (create_run-get_run 7 "run_2" "Another" one_run run_2-IsFresh).0

create_run-get_run_other_example :
    get_run "run_1" (created 7 "run_2" "Another" one_run) ≡ get_run "run_1" one_run
create_run-get_run_other_example =
    create_run-get_run_other 7 "run_2" "Another" one_run "run_1" run_2-IsFresh create_run_2
      run_2_not_run_1
