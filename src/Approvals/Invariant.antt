-- ===== src/Approvals/Invariant.antt =====
-- What holds of an approval's rows between two transactions.
use agent_gateway_control.Prelude.{
  ℕ, String, true, false, Option, none, some, List, [], ◌∷◌, ◌++◌, ◌≡◌, refl, sym, ◌∙◌, inl, inr,
  Option-cases, length, includes, is_some, arith,
}
use agent_gateway_control.Approvals.Requests.{ApprovalStatus, ApprovalRow, is_pending, is_granted}
use agent_gateway_control.Approvals.Actions.{
  ToolActionStatus, ToolActionRow, tool_action_idempotency_key,
}
use agent_gateway_control.Approvals.Case.{ApprovalOutcome}
use agent_gateway_control.Approvals.Resolve.{action_outcome, approval_outcome}
use agent_gateway_control.Approvals.Writes.{Core, ActionGuard, is_forward, is_run}

-- One event exactly when the approval is resolved.
abbrev pub OneEvent : Option ℕ → List ApprovalOutcome → Type 0
OneEvent none events = events ≡ []
OneEvent (some at) events = length events ≡ 1

abbrev pub IsUndecided : ApprovalRow → Type 0
IsUndecided approval =
    (approval.decided_by_user_id ≡ none)
    × (approval.decided_at ≡ none)
    × (approval.decision_post_id ≡ none)

-- An approver of the request decided it.
abbrev pub IsApproved : ApprovalRow → Type 0
IsApproved approval =
    (user : String) × (approval.decided_by_user_id ≡ some user)
    × (includes approval.allowed_approver_user_ids user ≡ true)

abbrev pub IsStarted : ToolActionStatus → Option ℕ → Type 0
IsStarted ToolActionStatus.queued at = at ≡ none
IsStarted ToolActionStatus.running at = is_some at ≡ true
IsStarted ToolActionStatus.succeeded at = is_some at ≡ true
IsStarted ToolActionStatus.unknown at = is_some at ≡ true
IsStarted ToolActionStatus.failed at = Unit
IsStarted ToolActionStatus.cancelled at = Unit

abbrev pub key_if : Option ℕ → String → List String
key_if none key = []
key_if (some at) key = key ∷ []

module _ {R : Type 0} where
  -- The action carries what was approved, under the key made of it.
  pub record IsActionOf (approval : ApprovalRow) (a : ToolActionRow R) : Type 0 where
    pub approval_id : a.approval_id ≡ approval.id
    pub action_type : a.action_type ≡ approval.action_type
    pub action_params : a.action_params ≡ approval.action_params
    pub hash : a.immutable_action_hash ≡ approval.immutable_action_hash
    pub key :
        a.idempotency_key ≡ tool_action_idempotency_key approval.id approval.immutable_action_hash
    pub started : IsStarted a.status a.started_at

  abbrev pub ActionFor : ApprovalRow → List String → Option (ToolActionRow R) → Type 0
  ActionFor approval begun none = (is_granted approval.status ≡ false) × (begun ≡ [])
  ActionFor approval begun (some a) =
      (approval.status ≡ ApprovalStatus.granted)
      × (IsActionOf approval a)
      × (begun ≡ key_if a.started_at a.idempotency_key)

  pub record WellFormed (k : Core R) : Type 0 where
    pub undecided : k.approval.status ≡ ApprovalStatus.pending → IsUndecided k.approval
    pub approved : k.approval.status ≡ ApprovalStatus.granted → IsApproved k.approval
    pub one_event : OneEvent k.approval.resolved_at k.resolved_events
    pub ended :
        is_some k.approval.resolved_at ≡ true
        → is_some (approval_outcome k.approval.status k.action) ≡ true
    pub action_for : ActionFor k.approval k.begun k.action

  pub ActionFor-imp :
      (p q : ApprovalRow) (begun : List String) (o : Option (ToolActionRow R))
      → q.status ≡ p.status
      → q.id ≡ p.id
      → q.action_type ≡ p.action_type
      → q.action_params ≡ p.action_params
      → q.immutable_action_hash ≡ p.immutable_action_hash
      → ActionFor p begun o
      → ActionFor q begun o
  ActionFor-imp p q begun none s i t ps h f = rw s f
  ActionFor-imp p q begun (some a) s i t ps h f = (
    s ∙ f.0,
    record {
      approval_id = f.1.approval_id ∙ sym i;
      action_type = f.1.action_type ∙ sym t;
      action_params = f.1.action_params ∙ sym ps;
      hash = f.1.hash ∙ sym h;
      key = rw (i, h) f.1.key;
      started = f.1.started;
    },
    f.2,
  )

  -- A pending approval has no action.
  pub pending-no_action :
      (p : ApprovalRow) (begun : List String) (o : Option (ToolActionRow R))
      → p.status ≡ ApprovalStatus.pending
      → ActionFor p begun o
      → (o ≡ none) × (begun ≡ [])
  pending-no_action p begun none e f = (refl, f.1)
  pending-no_action p begun (some a) e f = absurd (ground (arith, sym e ∙ f.0))

  -- Nor an event of its end.
  pub pending-unresolved :
      (k : Core R)
      → WellFormed k
      → k.approval.status ≡ ApprovalStatus.pending
      → k.approval.resolved_at ≡ none
  unfolding approval_outcome
  pending-unresolved k w e = elim (Option-cases k.approval.resolved_at) [
    | inl n ↦ n
    | inr (t, r) ↦
        absurd (let o = w.ended (rw r refl) in let bad = rw e at o in ground (arith, bad))
  ]

  pub resolve-WellFormed :
      (k : Core R) (now : ℕ) (outcome : ApprovalOutcome)
      → k.approval.resolved_at ≡ none
      → approval_outcome k.approval.status k.action ≡ some outcome
      → WellFormed k
      → WellFormed (record k {
        approval = record k.approval { resolved_at = some now };
        resolved_events = k.resolved_events ++ outcome ∷ [];
      })
  resolve-WellFormed k now outcome n o w =
      let events : k.resolved_events ≡ [] = let one = w.one_event in rw n at one in
      record {
        undecided = w.undecided;
        approved = w.approved;
        one_event = rw events refl;
        ended = λ h. rw o refl;
        action_for =
            ActionFor-imp k.approval (record k.approval { resolved_at = some now }) k.begun k.action
              refl refl refl refl refl w.action_for;
      }

  -- A pending approval is denied, or ends without a decision.
  pub close-WellFormed :
      (k : Core R) (a : ApprovalRow)
      → k.approval.status ≡ ApprovalStatus.pending
      → is_pending a.status ≡ false
      → is_granted a.status ≡ false
      → a.resolved_at ≡ k.approval.resolved_at
      → WellFormed k
      → WellFormed (record k { approval = a })
  close-WellFormed k a e p g r w =
      let n = pending-unresolved k w e in
      let gone = pending-no_action k.approval k.begun k.action e w.action_for in
      record {
        undecided = λ s. absurd (let bad = rw s at p in ground (arith, bad));
        approved = λ s. absurd (let bad = rw s at g in ground (arith, bad));
        one_event = rw r w.one_event;
        ended = λ h. absurd (let bad = rw (r, n) at h in ground (arith, bad));
        action_for = rw gone.0 (g, gone.1);
      }

  pub move-ActionFor :
      (p : ApprovalRow) (begun : List String) (a moved : ToolActionRow R)
      → ActionGuard a moved
      → moved.started_at ≡ a.started_at
      → IsStarted moved.status moved.started_at
      → ActionFor p begun (some a)
      → ActionFor p begun (some moved)
  move-ActionFor p begun a moved g t s f = (
    f.0,
    record {
      approval_id = g.approval_id ∙ f.1.approval_id;
      action_type = g.action_type ∙ f.1.action_type;
      action_params = g.action_params ∙ f.1.action_params;
      hash = g.immutable_action_hash ∙ f.1.hash;
      key = g.idempotency_key ∙ f.1.key;
      started = s;
    },
    rw (t, g.idempotency_key) f.2,
  )

pub forward-IsStarted :
    (a b : ToolActionStatus) (at : Option ℕ)
    → is_forward a b ≡ true
    → (is_run b ≡ true → a ≡ b)
    → IsStarted a at
    → IsStarted b at
forward-IsStarted a b at f r s = ground arith

pub forward-outcome :
    (a b : ToolActionStatus)
    → is_forward a b ≡ true
    → is_some (action_outcome a) ≡ true
    → is_some (action_outcome b) ≡ true
forward-outcome a b f o = ground arith
