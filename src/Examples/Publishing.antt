-- ===== src/Examples/Publishing.antt =====
-- The theorems on the artifact store at concrete inputs.
use multi_agent_aidlc.Common.{
  All, String, ◌≡◌, ◌≢◌, ne_of_beq, string_eq, refl, none, str, ok, err, value_error, if◌then◌else◌,
}
use multi_agent_aidlc.Domain.{
  StageName, ArtifactKind, ArtifactRecord, ContentPath, current, ArtifactKind-discrete,
  project_id_for_run,
}
use multi_agent_aidlc.Storage.Snapshots.{snapshot_kinds}
use multi_agent_aidlc.Storage.Artifacts.{
  Publication, Store, lookup, put, write, release_source, descriptor_after, read_content,
  manifest_of, destination_of, cleared, filled,
}
use multi_agent_aidlc.Storage.Artifacts.Reading.{read_content-write, read_content-superseded}
use multi_agent_aidlc.Storage.Artifacts.Alignment.{IsAligned, write-IsAligned}
use multi_agent_aidlc.Storage.Artifacts.Frame.{write-IsConsistent, write-frame, removed}
use multi_agent_aidlc.Examples.Data.{hashing, publication, empty_store}

abbrev plan : Publication
plan = publication ArtifactKind.implementation_plan "planning-agent" "The plan"

abbrev new_plan : Publication
new_plan = publication ArtifactKind.implementation_plan "planning-agent" "A better plan"

abbrev change : Publication
change = publication ArtifactKind.code_change "backend-agent" "The code"

-- The result of a write that is known to succeed.
abbrev record_of : Publication → String → ArtifactRecord
record_of p hex = record {
  metadata = manifest_of hashing hex 1 p;
  content_path = destination_of hashing hex p;
}

abbrev after : Publication → String → Store → Store
after p hex store = record store {
  directories =
      put (destination_of hashing hex p)
        (filled p (manifest_of hashing hex 1 p) none
          (lookup (destination_of hashing hex p) (cleared hashing p store.directories)))
        (cleared hashing p store.directories);
}

write-plan :
    write hashing "1" 1 plan empty_store ≡ ok (record_of plan "1", after plan "1" empty_store)
unfolding write release_source descriptor_after ArtifactKind-discrete snapshot_kinds
write-plan = refl

write-new_plan :
    write hashing "2" 1 new_plan (after plan "1" empty_store)
    ≡ ok (record_of new_plan "2", after new_plan "2" (after plan "1" empty_store))
unfolding write release_source descriptor_after ArtifactKind-discrete snapshot_kinds
write-new_plan = refl

read_content-write_example :
    read_content hashing (record_of plan "1") (after plan "1" empty_store) ≡ ok (str "The plan")
read_content-write_example = read_content-write hashing "1" 1 plan empty_store write-plan

abbrev first_id : String
first_id = "1"

abbrev second_id : String
second_id = "2"

ids_differ : first_id ≢ second_id
ids_differ = ne_of_beq first_id second_id refl

one_slot : destination_of hashing "1" plan ≡ destination_of hashing "2" new_plan
unfolding snapshot_kinds ArtifactKind-discrete
one_slot = refl

read_content-superseded_example :
    read_content hashing (record_of plan "1") (after new_plan "2" (after plan "1" empty_store))
    ≡ err (value_error "Artifact snapshot superseded")
read_content-superseded_example =
    read_content-superseded hashing "1" "2" 1 1 plan new_plan empty_store
      (after plan "1" empty_store) (after new_plan "2" (after plan "1" empty_store)) write-plan
      write-new_plan one_slot ids_differ

write-IsAligned_example : All (IsAligned hashing) (after plan "1" empty_store).directories
write-IsAligned_example = write-IsAligned hashing "1" 1 plan empty_store tt write-plan

abbrev backend_path : ContentPath
backend_path =
    current (project_id_for_run hashing "run_1") StageName.intake "backend-agent"
      ArtifactKind.code_change

abbrev coded_store : Store
coded_store = after change "0" empty_store

write_over :
    write hashing "2" 1 plan coded_store ≡ ok (record_of plan "2", after plan "2" coded_store)
unfolding write release_source descriptor_after ArtifactKind-discrete snapshot_kinds
write_over = refl

write-change : write hashing "0" 1 change empty_store ≡ ok (record_of change "0", coded_store)
unfolding write release_source descriptor_after ArtifactKind-discrete snapshot_kinds
write-change = refl

other_path : backend_path ≢ destination_of hashing "2" plan
unfolding snapshot_kinds ArtifactKind-discrete
other_path e = cc e

write-frame_example : lookup backend_path (after plan "2" coded_store).directories ≡ (
    if removed hashing "2" 1 plan backend_path
    then none
    else lookup backend_path coded_store.directories)
write-frame_example =
    write-frame hashing "2" 1 plan coded_store backend_path
      (write-IsConsistent hashing "0" 1 change empty_store tt write-change) write_over other_path
