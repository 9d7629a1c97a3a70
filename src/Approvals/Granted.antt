-- ===== src/Approvals/Granted.antt =====
-- What a granted action has been checked against, when the reply was handled.
use agent_gateway_control.Prelude.{
  ℕ, String, str_eq, eq_iff, Bool, true, false, ◌&&◌, not, Option, none, some, List, [], ◌∷◌, ◌++◌,
  ◌≡◌, ◌≢◌, refl, sym, ◌∙◌, inl, inr, Bool-cases, arith, leb, any, is_none, is_some, if◌then◌else◌,
}
use agent_gateway_control.Agents.StateMachine.{AgentState}
use agent_gateway_control.Policy.Tools.{evaluate_tool}
use agent_gateway_control.Approvals.Requests.{ApprovalStatus, ApprovalRow, is_pending, is_expired}
use agent_gateway_control.Approvals.Case.{Case, CardPost, audit, raise_alert, post_notice}
use agent_gateway_control.Approvals.Resolve.{
  resolve_approval, record_decision, emit_resolved, approval_outcome,
}
use agent_gateway_control.Approvals.Execution.{
  Env, asks_approval, approved_action_issues, is_disabled, approval_action_hash, hash_issues,
  namespace_issues, enabled_issues, configured_issues, execution_issues,
}
use agent_gateway_control.Approvals.Codes.{approve, deny, malformed_command}
use agent_gateway_control.Approvals.Decide.{
  ApprovalReply, ApprovalCommand, not_approver, grant_checked, grant_request, carried_out,
  decide_code, decide_by, on_lookup, handle_approval_reply, is_key, card_key, decide, deny_request,
  refuse_grant,
}

emit_resolved-status :
    {R : Type 0} (now : ℕ) (o : Option _) (c : Case R)
    → (emit_resolved now o c).0.approval.status ≡ c.approval.status
emit_resolved-status now none c = refl
emit_resolved-status now (some outcome) c = elim (Bool-cases (is_some c.approval.resolved_at)) [
  | inl r ↦ rw r refl
  | inr r ↦ rw r refl
]

append-nil : {A : Type 0} (xs ys : List A) → xs ++ ys ≡ [] → (xs ≡ []) × (ys ≡ [])
append-nil [] ys h = (refl, h)
append-nil (x ∷ xs) ys h = absurd (ground (arith, h))

module _ (digest : String → List (String × String) → String) where
  -- The policy still requires an approval for the action and lets it run otherwise.
  pub record IsAllowed (env : Env) (approval : ApprovalRow) : Type 0 where
    pub state : AgentState
    pub configured : env.agent_state ≡ some state
    pub not_disabled : is_disabled state ≡ false
    pub asks :
        asks_approval
          (evaluate_tool env.tool_policy
            (record {
              agent_id = approval.requested_by_agent_id;
              finance_agent_id = env.finance_agent_id;
            })
            approval.action_type).decision
        ≡ true
    pub params : env.param_issues ≡ []
    pub custom : env.custom_issues ≡ []
    pub hash :
        approval_action_hash digest approval.action_type approval.action_params
        ≡ approval.immutable_action_hash
    pub not_killed : env.kill_switch ≡ false

  approved_action_issues-none :
      (env : Env) (approval : ApprovalRow)
      → approved_action_issues env.tool_policy
          (record {
            agent_id = approval.requested_by_agent_id;
            finance_agent_id = env.finance_agent_id;
          })
          approval.action_type
          env.param_issues
        ≡ []
      → (asks_approval
            (evaluate_tool env.tool_policy
              (record {
                agent_id = approval.requested_by_agent_id;
                finance_agent_id = env.finance_agent_id;
              })
              approval.action_type).decision
          ≡ true)
        × (env.param_issues ≡ [])
  unfolding approved_action_issues
  approved_action_issues-none env approval h = ground (arith, h)

  hash_issues-none :
      (approval : ApprovalRow)
      → hash_issues digest approval ≡ []
      → approval_action_hash digest approval.action_type approval.action_params
        ≡ approval.immutable_action_hash
  hash_issues-none approval h = ground (
    arith,
    h,
    eq_iff (approval_action_hash digest approval.action_type approval.action_params)
        approval.immutable_action_hash,
  )

  enabled_issues-none :
      (env : Env) (approval : ApprovalRow) (state : AgentState)
      → env.agent_state ≡ some state
      → is_disabled state ≡ false
      → env.kill_switch ≡ false
      → enabled_issues digest env approval ≡ []
      → IsAllowed env approval
  enabled_issues-none env approval state e d k h =
      let listed = append-nil _ (namespace_issues approval) h in
      let hashed = append-nil _ (hash_issues digest approval) listed.0 in
      let checked = append-nil _ env.custom_issues hashed.0 in
      let policy = approved_action_issues-none env approval checked.0 in
      record {
        state = state;
        configured = e;
        not_disabled = d;
        asks = policy.0;
        params = policy.1;
        custom = checked.1;
        hash = hash_issues-none approval hashed.1;
        not_killed = k;
      }

  configured_issues-none :
      (o : Option AgentState) (env : Env) (approval : ApprovalRow)
      → env.agent_state ≡ o
      → env.kill_switch ≡ false
      → configured_issues digest o env approval ≡ []
      → IsAllowed env approval
  configured_issues-none none env approval e k h = absurd (ground (arith, h))
  configured_issues-none (some state) env approval e k h =
      elim (Bool-cases (is_none env.config_version)) [
        | inl n ↦ absurd (let bad = rw n at h in ground (arith, bad))
        | inr n ↦ elim (Bool-cases (is_disabled state)) [
          | inl d ↦ absurd (let bad = rw (n, d) at h in ground (arith, bad))
          | inr d ↦ enabled_issues-none env approval state e d k (rw (n, d) at h)
        ]
      ]

module _ {R : Type 0} where
  resolve_approval-status :
      (now : ℕ) (c : Case R) → (resolve_approval now c).0.approval.status ≡ c.approval.status
  unfolding resolve_approval
  resolve_approval-status now c =
      emit_resolved-status now (approval_outcome c.approval.status c.action) c

  refuse_grant-status :
      (env : Env) (issues : List String) (reply : ApprovalReply) (c : Case R)
      → (refuse_grant env issues reply c).0.approval.status ≡ ApprovalStatus.cancelled
  unfolding refuse_grant audit raise_alert
  refuse_grant-status env issues reply c = resolve_approval-status env.now _

  deny_request-status :
      (env : Env) (reply : ApprovalReply) (c : Case R)
      → (deny_request env reply c).0.approval.status ≡ ApprovalStatus.denied
  unfolding deny_request audit record_decision
  deny_request-status env reply c = resolve_approval-status env.now _

  grant_checked-issues :
      (env : Env) (id : String) (reply : ApprovalReply) (c : Case R)
      (namespace version : Option String) (issues : List String)
      → (grant_checked env id reply c namespace version issues).0.approval.status
        ≡ ApprovalStatus.granted
      → issues ≡ []
  grant_checked-issues env id reply c (some namespace) (some version) [] h = refl
  grant_checked-issues env id reply c (some namespace) (some version) (x ∷ xs) h =
      absurd (ground (arith, sym (refuse_grant-status env (x ∷ xs) reply c) ∙ h))
  grant_checked-issues env id reply c (some namespace) none issues h =
      absurd (ground (arith, sym (refuse_grant-status env issues reply c) ∙ h))
  grant_checked-issues env id reply c none version issues h =
      absurd (ground (arith, sym (refuse_grant-status env issues reply c) ∙ h))

no_kill_issue : (b : Bool) (s : String) → (if b then s ∷ [] else []) ≡ [] → b ≡ false
no_kill_issue true s h = absurd (ground (arith, h))
no_kill_issue false s h = refl

module _ {R : Type 0} (digest : String → List (String × String) → String)
    (code_of : ApprovalRow → String) where
  carried_out-IsAllowed :
      (env : Env) (id : String) (reply : ApprovalReply) (approving : Bool) (c : Case R)
      → (carried_out digest code_of env id reply approving c).0.approval.status
        ≡ ApprovalStatus.granted
      → IsAllowed digest env c.approval
  unfolding grant_request execution_issues
  carried_out-IsAllowed env id reply false c h =
      absurd (ground (arith, sym (deny_request-status env reply c) ∙ h))
  carried_out-IsAllowed env id reply true c h =
      let none_left = grant_checked-issues env id reply c _ _ _ h in
      let apart = append-nil (execution_issues digest env c.approval) _ none_left in
      configured_issues-none digest env.agent_state env c.approval refl
        (no_kill_issue env.kill_switch "the kill switch is on" apart.1) apart.0

  decide_code-IsAllowed :
      (env : Env) (id : String) (reply : ApprovalReply) (approving : Bool) (code : String)
      (c : Case R)
      → c.approval.status ≢ ApprovalStatus.granted
      → (decide_code digest code_of env id reply approving code c).0.approval.status
        ≡ ApprovalStatus.granted
      → IsAllowed digest env c.approval
  unfolding audit
  decide_code-IsAllowed env id reply approving code c p h =
      elim (Bool-cases (str_eq code (code_of c.approval))) [
        | inr e ↦ absurd (p (rw e at h))
        | inl e ↦ elim (Bool-cases (is_expired c.approval.status)) [
          | inl x ↦ absurd (p (rw (e, x) at h))
          | inr x ↦ elim (Bool-cases (is_pending c.approval.status)) [
            | inr n ↦ absurd (p (rw (e, x, n) at h))
            | inl n ↦ elim (Bool-cases (leb c.approval.expires_at env.now)) [
              | inl l ↦ absurd (p (rw (e, x, n, l) at h))
              | inr l ↦ carried_out-IsAllowed env id reply approving c (rw (e, x, n, l) at h)
            ]
          ]
        ]
      ]

  decide_by-IsAllowed :
      (refusal : Option String) (env : Env) (id : String) (reply : ApprovalReply)
      (command : ApprovalCommand) (c : Case R)
      → c.approval.status ≢ ApprovalStatus.granted
      → (decide_by digest code_of refusal env id reply command c).0.approval.status
        ≡ ApprovalStatus.granted
      → IsAllowed digest env c.approval
  unfolding audit raise_alert
  decide_by-IsAllowed (some refusal) env id reply command c p h = absurd (p h)
  decide_by-IsAllowed none env id reply malformed_command c p h = absurd (p h)
  decide_by-IsAllowed none env id reply (approve code) c p h =
      decide_code-IsAllowed env id reply true code c p h
  decide_by-IsAllowed none env id reply (deny code) c p h =
      decide_code-IsAllowed env id reply false code c p h

  on_lookup-IsAllowed :
      (card : Option CardPost) (env : Env) (id : String) (reply : ApprovalReply)
      (command : ApprovalCommand) (c : Case R)
      → c.approval.status ≢ ApprovalStatus.granted
      → (on_lookup digest code_of card env id reply command c).0.approval.status
        ≡ ApprovalStatus.granted
      → IsAllowed digest env c.approval
  unfolding post_notice decide
  on_lookup-IsAllowed none env id reply command c p h =
      elim (Bool-cases (is_key reply.root_card_key (card_key c.approval) && not c.card_dead)) [
        | inl e ↦ absurd (p (rw e at h))
        | inr e ↦ absurd (p (rw e at h))
      ]
  on_lookup-IsAllowed (some card) env id reply command c p h =
      elim (Bool-cases
        (str_eq card.post_id reply.root_post_id && str_eq card.channel_id reply.channel_id)) [
          | inr e ↦ absurd (p (rw e at h))
          | inl e ↦ elim (Bool-cases (any (λ r. str_eq r.0 reply.post_id) c.replies)) [
            | inl seen ↦ absurd (p (rw (e, seen) at h))
            | inr new ↦
                decide_by-IsAllowed (not_approver env c.approval reply) env id reply command c p
                  (rw (e, new) at h)
          ]
        ]

  -- A reply that grants a request does so only when, at that moment, the requesting agent is configured
  -- and not disabled, the policy still asks an approval for the action, neither the parameter schema
  -- nor a custom tool's definition has an issue with it, the stored action still has its hash, and the
  -- kill switch is off.
  pub granted-IsAllowed :
      (env : Env) (id : String) (reply : ApprovalReply) (command : Option ApprovalCommand)
      (c : Case R)
      → c.approval.status ≢ ApprovalStatus.granted
      → (handle_approval_reply digest code_of env id reply command c).0.approval.status
        ≡ ApprovalStatus.granted
      → IsAllowed digest env c.approval
  unfolding handle_approval_reply
  granted-IsAllowed env id reply none c p h = absurd (p h)
  granted-IsAllowed env id reply (some command) c p h =
      on_lookup-IsAllowed c.card env id reply command c p h
