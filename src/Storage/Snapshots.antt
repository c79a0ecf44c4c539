-- ===== src/Storage/Snapshots.antt =====
-- src/aidlc/storage/snapshots.py: which kinds are snapshots, and which snapshots a new one makes
-- stale.
pub mod Order
use multi_agent_aidlc.Common.{
  Bool, true, false, not, ◌&&◌, ◌||◌, List, [], ◌∷◌, ◌==◌, if◌then◌else◌, any,
}
use multi_agent_aidlc.Domain.{
  ArtifactKind, project_brief, requirements_spec, architecture_decision, ux_specification,
  threat_model, test_plan, implementation_plan, code_change, integrated_source, build_report,
  test_report, static_analysis_report, quality_gate_report, evaluation_report, release_bundle,
  artifact_kind_eq, ArtifactKind-discrete,
}

-- `kind in kinds`
abbrev pub contains : List ArtifactKind → ArtifactKind → Bool
unfolding ArtifactKind-discrete
contains kinds kind = any (λ k. k == kind) kinds

abbrev snapshot_kind_list : List ArtifactKind
snapshot_kind_list =
    project_brief ∷ requirements_spec ∷ architecture_decision ∷ ux_specification ∷ threat_model
    ∷ test_plan ∷ implementation_plan ∷ code_change ∷ integrated_source ∷ build_report ∷ test_report
    ∷ static_analysis_report ∷ quality_gate_report ∷ evaluation_report ∷ release_bundle ∷ []

unfoldable pub snapshot_kinds : ArtifactKind → Bool
unfolding ArtifactKind-discrete
snapshot_kinds kind = contains snapshot_kind_list kind

-- `_GROUPS`, in the order of the pipeline
abbrev groups : List (List ArtifactKind)
groups =
    (project_brief ∷ [])
    ∷ (requirements_spec ∷ [])
    ∷ (architecture_decision ∷ ux_specification ∷ threat_model ∷ test_plan ∷ [])
    ∷ (implementation_plan ∷ [])
    ∷ (code_change ∷ [])
    ∷ (integrated_source ∷ [])
    ∷ (build_report ∷ test_report ∷ static_analysis_report ∷ [])
    ∷ (quality_gate_report ∷ [])
    ∷ (evaluation_report ∷ [])
    ∷ (release_bundle ∷ [])
    ∷ []

-- The loop of `invalidated_kinds`: at the first group with `kind`, the union of the later ones.
invalidated_from : List (List ArtifactKind) → ArtifactKind → ArtifactKind → Bool
unfolding ArtifactKind-discrete
invalidated_from [] kind other = false
invalidated_from (group ∷ later) kind other =
    let rest = invalidated_from later kind other in
    if contains group kind then any (λ g. contains g other) later else rest

-- `other in invalidated_kinds(kind)`
unfoldable pub invalidated_kinds : ArtifactKind → ArtifactKind → Bool
unfolding invalidated_from
invalidated_kinds kind other = invalidated_from groups kind other
