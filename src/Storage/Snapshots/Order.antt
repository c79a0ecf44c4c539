-- ===== src/Storage/Snapshots/Order.antt =====
-- The invalidation relation is the strict order of the pipeline's stages.
use multi_agent_aidlc.Common.{ℕ, ◌≡◌, ◌&&◌, refl, ltb}
use multi_agent_aidlc.Domain.{ArtifactKind}
use multi_agent_aidlc.Storage.Snapshots.{snapshot_kinds, invalidated_kinds}

-- The place of a kind in the pipeline, from 1; 0 is a kind that the pipeline does not order.
abbrev pub depth : ArtifactKind → ℕ
depth ArtifactKind.project_brief = 1
depth ArtifactKind.requirements_spec = 2
depth ArtifactKind.architecture_decision = 3
depth ArtifactKind.ux_specification = 3
depth ArtifactKind.threat_model = 3
depth ArtifactKind.test_plan = 3
depth ArtifactKind.implementation_plan = 4
depth ArtifactKind.code_change = 5
depth ArtifactKind.integrated_source = 6
depth ArtifactKind.build_report = 7
depth ArtifactKind.test_report = 7
depth ArtifactKind.static_analysis_report = 7
depth ArtifactKind.quality_gate_report = 8
depth ArtifactKind.evaluation_report = 9
depth ArtifactKind.release_bundle = 10
depth _ = 0

-- A new snapshot of one kind makes another kind stale exactly when the first has a place in the
-- pipeline and the second has a later one.
pub invalidated_kinds-depth :
    (kind other : ArtifactKind)
    → invalidated_kinds kind other ≡ (ltb 0 (depth kind) && ltb (depth kind) (depth other))
unfolding invalidated_kinds
invalidated_kinds-depth ArtifactKind.project_brief = elim [
  | ArtifactKind.project_brief ↦ refl
  | _ ↦ refl
]
invalidated_kinds-depth _ = elim [ ArtifactKind.project_brief ↦ refl | _ ↦ refl ]

-- The kinds with a place in the pipeline are the snapshot kinds.
pub snapshot_kinds-depth : (kind : ArtifactKind) → snapshot_kinds kind ≡ ltb 0 (depth kind)
unfolding snapshot_kinds
snapshot_kinds-depth ArtifactKind.project_brief = refl
snapshot_kinds-depth _ = refl
