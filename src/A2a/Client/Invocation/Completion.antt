-- ===== src/A2a/Client/Invocation/Completion.antt =====
-- What stands behind a result that an invocation returns.
use mathlib.Core.Path.{subst}
use multi_agent_aidlc.Common.{
  ℕ, zero, suc, ◌+◌, String, ◌≡◌, ◌⊎◌, ◌||◌, not, eq_of_beq, Option, none, arith, refl, ap, ◌∙◌,
  inl, inr, Bool, true, false, some, Result, ok, err, Bool-cases, if◌then◌else◌, ◌==◌, string_eq,
  ltb, ◌&&◌,
}
use multi_agent_aidlc.Domain.{AgentContext, DelegatedTask, artifact_kind_eq}
use multi_agent_aidlc.Agents.{AgentSpec}
use multi_agent_aidlc.A2a.TaskStore.{TaskState, task_state_eq}
use multi_agent_aidlc.A2a.Client.{
  RemoteTask, Sdk, is_settled, decode_result, task_result, state_name, transient, save_mapping,
  emit_mapping,
}
use multi_agent_aidlc.A2a.Client.Decoding.{decode_result-kind, task_result-completed}
use multi_agent_aidlc.A2a.Client.Invocation.{
  Session, Answered, answered, broke, waiting, Talk, then_talk, with_session, does, checks,
  HumanReply, update, updated_mapping, check_identity, answer_prompt, by_state, converse, connect,
  open_task, required_id, try_once, after_attempt, attempts, is_exception, give_up, guarded, invoke,
  emit, retry_payload, cancel_if_open, fail_pending, note_invocation_failed, raise_again,
  cancel_remote, new_mapping, ◌>>◌, say,
}
use multi_agent_aidlc.Orchestration.Services.{AgentResult}
use multi_agent_aidlc.Orchestration.World.{Raised, Exit, returned, raised, World, Host, Exec}

module _ {A B : Type 0} where
  then_talk-answered :
      (x : Answered A × Session × World) (rest : A → Talk B) {b : B} {s' : Session} {w' : World}
      → then_talk x rest ≡ (answered b, s', w')
      → (a : A) × (s : Session) × (w : World) × (x ≡ (answered a, s, w))
        × (rest a s w ≡ (answered b, s', w'))
  then_talk-answered (answered a, s, w) rest h = (a, s, w, refl, h)
  then_talk-answered (broke error, s, w) rest h = cc h
  then_talk-answered (waiting, s, w) rest h = cc h

module _ {A : Type 0} where
  with_session-answered :
      (s : Session) (x : Exit A × World) {a : A} {s' : Session} {w' : World}
      → with_session s x ≡ (answered a, s', w')
      → (s ≡ s') × (x ≡ (returned a, w'))
  with_session-answered s (returned a, w) h = (cc h, ground (arith, h))
  with_session-answered s (raised error, w) h = cc h

  checks-answered :
      (r : Result A) (s : Session) (w : World) {a : A} {s' : Session} {w' : World}
      → checks r s w ≡ (answered a, s', w')
      → (r ≡ ok a) × (s ≡ s') × (w ≡ w')
  checks-answered (ok b) s w h = (cc h, cc h, cc h)
  checks-answered (err error) s w h = cc h

-- An identity that passes is the known one, unless that is empty.
check_identity-known :
    (mapping : DelegatedTask) (task_id context_id id : String)
    → mapping.task_id ≡ some id
    → check_identity mapping task_id context_id ≡ ok tt
    → (id ≡ "") ⊎ (task_id ≡ id)
unfolding check_identity
check_identity-known mapping task_id context_id id e h =
    elim (Bool-cases (task_id == "" || not (context_id == mapping.context_id))) [
      | inl foreign ↦ cc (rw foreign at h)
      | inr own ↦ elim (Bool-cases (id == "")) [
        | inl unknown ↦ inl (eq_of_beq id "" unknown)
        | inr known ↦ elim (Bool-cases (task_id == id)) [
          | inl same ↦ inr (eq_of_beq task_id id same)
          | inr other ↦ cc (rw (own, e, known, other) at h)
        ]
      ]
    ]

-- The end of an invocation: the agent was asked for the task of the
-- delegation (whose identifier is empty or that of the task) and answered with one that is completed, whose one
-- artifact has one part, a JSON document that is the result, of the kind that the agent is there for;
-- the delegation, under this task and as completed, was saved right after the answer; and no step but
-- the note of a change of state follows.
pub record Stands (sdk : Sdk) (host : Host) (spec : AgentSpec) (result : AgentResult) (s : Session)
    (w' : World) : Type 0 where
  pub id : String
  pub asked : World
  pub task : RemoteTask
  pub known : (id ≡ "") ⊎ (task.id ≡ id)
  pub got : World
  pub answer : sdk.get_task id asked ≡ (returned task, got)
  pub state : task.state ≡ TaskState.completed
  pub decoded : decode_result sdk spec task ≡ ok result
  pub kind : result.artifact_kind ≡ spec.artifact_kind
  pub identity : s.mapping.task_id ≡ some task.id
  pub recorded : s.mapping.state ≡ "completed"
  pub saved : World
  pub stored : save_mapping sdk host s.mapping got ≡ (returned tt, saved)
  pub noted :
      (saved ≡ w') ⊎ (emit_mapping sdk host "a2a.task_status" s.mapping saved ≡ (returned tt, w'))

-- An answer of the agent that was saved in the delegation.
record Saved (sdk : Sdk) (host : Host) (task : RemoteTask) (s : Session) (w' : World) : Type 0 where
  id : String
  asked : World
  got : World
  known : (id ≡ "") ⊎ (task.id ≡ id)
  answer : sdk.get_task id asked ≡ (returned task, got)
  identity : s.mapping.task_id ≡ some task.id
  recorded : s.mapping.state ≡ state_name task.state
  saved : World
  stored : save_mapping sdk host s.mapping got ≡ (returned tt, saved)
  noted :
      (saved ≡ w') ⊎ (emit_mapping sdk host "a2a.task_status" s.mapping saved ≡ (returned tt, w'))

module _ (sdk : Sdk) (spec : AgentSpec) where
  module _ (host : Host) (context : AgentContext)
      (human_input : DelegatedTask → AgentResult → Exec HumanReply) where
    told :
        (b : Bool) (known : DelegatedTask) (s2 : Session) (w2 : World) {s3 : Session} {w3 : World}
        → (if b then say tt else does (emit_mapping sdk host "a2a.task_status" known)) s2 w2
          ≡ (answered tt, s3, w3)
        → (s2 ≡ s3)
          × ((w2 ≡ w3) ⊎ (emit_mapping sdk host "a2a.task_status" known w2 ≡ (returned tt, w3)))
    told true known s2 w2 e = (cc e, inl (cc e))
    told false known s2 w2 e =
        let (same, noted) =
          with_session-answered s2 (emit_mapping sdk host "a2a.task_status" known w2) e in
        (same, inr noted)

    required_id-answered :
        (o : Option String) (s : Session) (w : World) {id : String} {s' : Session} {w' : World}
        → required_id sdk host spec context human_input o s w ≡ (answered id, s', w')
        → (o ≡ some id) × (s ≡ s')
    required_id-answered none s w h = cc h
    required_id-answered (some id) s w h = (cc h, cc h)

    -- After an update by an answer the mapping names the task and its state, and is saved.
    update-Saved :
        (id : String) (asked : World) (task : RemoteTask) (s : Session) (w : World) {s' : Session}
        {w' : World}
        → s.mapping.task_id ≡ some id
        → sdk.get_task id asked ≡ (returned task, w)
        → update sdk host spec context human_input task.id task.context_id task.state s w
          ≡ (answered tt, s', w')
        → Saved sdk host task s' w'
    unfolding update
    update-Saved id asked task s w {s'} {w'} named answer h =
        let (_, s1, w1, checked, k1) =
          then_talk-answered (checks (check_identity s.mapping task.id task.context_id) s w) _ h in
        let (passes, _, same_world) = checks-answered _ s w checked in
        let known = updated_mapping s.mapping task.id task.state in
        let (_, s2, w2, saved, k2) =
          then_talk-answered
            (with_session (record s1 { mapping = known }) (save_mapping sdk host known w1)) _ k1 in
        let (kept, stored) =
          with_session-answered (record s1 { mapping = known }) (save_mapping sdk host known w1)
            saved in
        let (same, noted) = told (s.mapping.state == state_name task.state) known s2 w2 k2 in
        let mapped : known ≡ s'.mapping = ap (λ (z : Session). z.mapping) (kept ∙ same) in
        Saved_of id asked task known s' w' w w2
          (check_identity-known s.mapping task.id task.context_id id named passes) answer mapped
          refl refl (rw (← same_world) at stored) noted
      where
        Saved_of :
            (id : String) (asked : World) (task : RemoteTask) (known : DelegatedTask) (s' : Session)
            (w' got saved : World)
            → (id ≡ "") ⊎ (task.id ≡ id)
            → sdk.get_task id asked ≡ (returned task, got)
            → known ≡ s'.mapping
            → known.task_id ≡ some task.id
            → known.state ≡ state_name task.state
            → save_mapping sdk host known got ≡ (returned tt, saved)
            → (saved ≡ w')
              ⊎ (emit_mapping sdk host "a2a.task_status" known saved ≡ (returned tt, w'))
            → Saved sdk host task s' w'
        Saved_of id asked task known s' w' got saved is_known answer mapped named shown stored
              noted =
            record {
              id = id;
              asked = asked;
              got = got;
              known = is_known;
              answer = answer;
              identity = subst (λ (m : DelegatedTask). m.task_id ≡ some task.id) mapped named;
              recorded =
                  subst (λ (m : DelegatedTask). m.state ≡ state_name task.state) mapped shown;
              saved = saved;
              stored =
                  subst (λ (m : DelegatedTask). save_mapping sdk host m got ≡ (returned tt, saved))
                    mapped stored;
              noted =
                  subst
                    (λ (m : DelegatedTask).
                      (saved ≡ w')
                      ⊎ (emit_mapping sdk host "a2a.task_status" m saved ≡ (returned tt, w')))
                    mapped noted;
            }

    settled-Stands :
        (task : RemoteTask) (s : Session) (w : World) {result : AgentResult} {s' : Session}
        {w' : World}
        → Saved sdk host task s w
        → checks (task_result sdk spec task) s w ≡ (answered result, s', w')
        → Stands sdk host spec result s' w'
    settled-Stands task s w {result} {s'} {w'} known h =
        let (result_of, same_session, same_world) =
          checks-answered (task_result sdk spec task) s w h in
        let (state, decoded) = task_result-completed sdk spec task result_of in
        subst (λ z. Stands sdk host spec result s' z) same_world
          (subst (λ z. Stands sdk host spec result z w) same_session
            (record {
              id = known.id;
              asked = known.asked;
              task = task;
              known = known.known;
              got = known.got;
              answer = known.answer;
              state = state;
              decoded = decoded;
              kind = decode_result-kind sdk spec task decoded;
              identity = known.identity;
              recorded = known.recorded ∙ ap state_name state;
              saved = known.saved;
              stored = known.stored;
              noted = known.noted;
            }))

    by_state-Stands :
        (again : Talk AgentResult) (task : RemoteTask) (s : Session) (w : World)
        {result : AgentResult} {s' : Session} {w' : World}
        → Saved sdk host task s w
        → ((s : Session) (w : World)
            → again s w ≡ (answered result, s', w')
            → Stands sdk host spec result s' w')
        → by_state sdk host spec context human_input again task s w ≡ (answered result, s', w')
        → Stands sdk host spec result s' w'
    unfolding by_state
    by_state-Stands again task s w known later h =
        elim (Bool-cases (task.state == TaskState.input_required)) [
          | inl waits ↦
              let (_, s1, w1, resumed, k) =
                then_talk-answered (answer_prompt sdk host spec context human_input task s w)
                  (λ _. again) (rw waits at h) in
              later s1 w1 k
          | inr runs ↦ elim (Bool-cases (is_settled task.state)) [
            | inl settled ↦ settled-Stands task s w known (rw (runs, settled) at h)
            | inr active ↦
                let (_, s1, w1, slept, k) =
                  then_talk-answered (with_session s (sdk.sleep w)) (λ _. again)
                    (rw (runs, active) at h) in
                later s1 w1 k
          ]
        ]

    converse-Stands :
        (fuel : ℕ) (s : Session) (w : World) {result : AgentResult} {s' : Session} {w' : World}
        → converse sdk host spec context human_input fuel s w ≡ (answered result, s', w')
        → Stands sdk host spec result s' w'
    unfolding converse
    converse-Stands zero s w h = cc h
    converse-Stands (suc fuel) s w h =
        let (id, s0, w0, there, k0) =
          then_talk-answered (required_id sdk host spec context human_input s.mapping.task_id s w) _
            h in
        let (named, same) = required_id-answered s.mapping.task_id s w there in
        let (task, s1, w1, got, k1) =
          then_talk-answered (with_session s0 (sdk.get_task id w0)) _ k0 in
        let (_, s2, w2, updated, k2) =
          then_talk-answered
            (update sdk host spec context human_input task.id task.context_id task.state s1 w1) _
            k1 in
        let (kept, answer) = with_session-answered s0 (sdk.get_task id w0) got in
        by_state-Stands (converse sdk host spec context human_input fuel) task s2 w2
          (update-Saved id w0 task s1 w1
            (subst (λ (z : Session). z.mapping.task_id ≡ some id) (same ∙ kept) named) answer
            updated)
          (λ s3 w3 e. converse-Stands fuel s3 w3 e) k2

    try_once-Stands :
        (fuel : ℕ) (s : Session) (w : World) {result : AgentResult} {s' : Session} {w' : World}
        → try_once sdk host spec context human_input fuel s w ≡ (answered result, s', w')
        → Stands sdk host spec result s' w'
    unfolding try_once
    try_once-Stands fuel s w h =
        let (_, s1, w1, connected, k1) =
          then_talk-answered (connect sdk host spec context human_input s w) _ h in
        let (_, s2, w2, opened, k2) =
          then_talk-answered
            (open_task sdk host spec context human_input s1.mapping.task_id s1.mapping s1 w1) _
            k1 in
        let (id, s3, w3, there, k3) =
          then_talk-answered
            (required_id sdk host spec context human_input s2.mapping.task_id s2 w2) _ k2 in
        converse-Stands fuel s3 w3 k3

    after_attempt-Stands :
        (attempt : ℕ) (again : Talk AgentResult) (x : Answered AgentResult × Session × World)
        {result : AgentResult} {s' : Session} {w' : World}
        → ((s : Session) (w : World)
            → x ≡ (answered result, s, w)
            → Stands sdk host spec result s w)
        → ((s : Session) (w : World)
            → again s w ≡ (answered result, s', w')
            → Stands sdk host spec result s' w')
        → after_attempt sdk host spec context human_input attempt again x
          ≡ (answered result, s', w')
        → Stands sdk host spec result s' w'
    after_attempt-Stands attempt again (answered found, s, w) now later h = now _ _ h
    after_attempt-Stands attempt again (waiting, s, w) now later h = cc h
    after_attempt-Stands attempt again (broke error, s, w) now later h =
        elim (Bool-cases
          (is_exception error && (transient (sdk.causes error) && ltb attempt sdk.max_retries))) [
            | inr stops ↦ cc (rw stops at h)
            | inl goes_on ↦
                let (_, s1, w1, noted, k1) =
                  then_talk-answered
                    (emit sdk host spec context human_input "a2a.retry"
                      (retry_payload sdk host spec context human_input s.mapping attempt error) s w)
                    (λ _. does sdk.sleep >> again) (rw goes_on at h) in
                let (_, s2, w2, slept, k2) =
                  then_talk-answered (with_session s1 (sdk.sleep w1)) (λ _. again) k1 in
                later s2 w2 k2
          ]

    attempts-Stands :
        (left attempt fuel : ℕ) (s : Session) (w : World) {result : AgentResult} {s' : Session}
        {w' : World}
        → attempts sdk host spec context human_input left attempt fuel s w
          ≡ (answered result, s', w')
        → Stands sdk host spec result s' w'
    unfolding attempts
    attempts-Stands zero attempt fuel s w h = cc h
    attempts-Stands (suc left) attempt fuel s w h =
        let mapping : DelegatedTask = record s.mapping { attempts = attempt + 1 } in
        let (_, s1, w1, saved, k1) =
          then_talk-answered
            (with_session (record s { mapping = mapping }) (save_mapping sdk host mapping w)) _ h in
        after_attempt-Stands attempt
          (attempts sdk host spec context human_input left (attempt + 1) fuel)
          (try_once sdk host spec context human_input fuel s1 w1)
          (λ s2 w2 e. try_once-Stands fuel s1 w1 e)
          (λ s2 w2 e. attempts-Stands left (attempt + 1) fuel s2 w2 e) k1

    raise_again-raises :
        (error : Raised) (s : Session) (w : World) {result : AgentResult} {s' : Session}
        {w' : World}
        → ¬ (raise_again sdk host spec context human_input error s w ≡ (answered result, s', w'))
    raise_again-raises error s w h = cc h

    give_up-raises :
        (error : Raised) (s : Session) (w : World) {result : AgentResult} {s' : Session}
        {w' : World}
        → ¬ (give_up sdk host spec context human_input error s w ≡ (answered result, s', w'))
    unfolding give_up
    give_up-raises error s w h = elim (Bool-cases (is_exception error)) [
      | inl caught ↦
          let (_, s3, w3, noted, k) =
            then_talk-answered
              ((cancel_if_open sdk host spec context human_input
                  >> fail_pending sdk host spec context human_input
                  >> note_invocation_failed sdk host spec context human_input error)
                s w)
              (λ _. raise_again sdk host spec context human_input error) (rw caught at h) in
          raise_again-raises error s3 w3 k
      | inr passed ↦
          let (_, s1, w1, ended, k) =
            then_talk-answered (cancel_remote sdk host spec context human_input s w)
              (λ _. raise_again sdk host spec context human_input error) (rw passed at h) in
          raise_again-raises error s1 w1 k
    ]

    guarded-Stands :
        (x : Answered AgentResult × Session × World) {result : AgentResult} {s' : Session}
        {w' : World}
        → ((s : Session) (w : World)
            → x ≡ (answered result, s, w)
            → Stands sdk host spec result s w)
        → guarded sdk host spec context human_input x ≡ (answered result, s', w')
        → Stands sdk host spec result s' w'
    guarded-Stands (answered found, s, w) now h = now _ _ h
    guarded-Stands (waiting, s, w) now h = cc h
    guarded-Stands (broke error, s, w) now h = absurd (give_up-raises error s w h)

    -- If an invocation returns a result, whatever was streamed, retried or asked before, then it ended
    -- with an answer of `get_task`, asked for the task of this identifier (or for an empty one), in the
    -- state `completed`: the result is read from the task's
    -- one artifact with one JSON part and is of the kind that the agent's specification names, the
    -- delegation with this task and as completed was saved right after the answer, and the world that
    -- is left follows with at most the note of the new state.
    pub invoke-Stands :
        (digits : ℕ → String) (fuel : ℕ) (w : World) {result : AgentResult} {s' : Session}
        {w' : World}
        → invoke sdk host spec context human_input digits fuel w ≡ (answered result, s', w')
        → Stands sdk host spec result s' w'
    unfolding invoke
    invoke-Stands digits fuel w h =
        guarded-Stands
          (attempts sdk host spec context human_input (sdk.max_retries + 1) 0 fuel
            (record { mapping = new_mapping sdk digits spec context; connected = false }) w)
          (λ s1 w1 e. attempts-Stands (sdk.max_retries + 1) 0 fuel _ w e) h
