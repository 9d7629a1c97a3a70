-- ===== src/Approvals/Writes.antt =====
-- The writes that the handlers of an approval make to its rows, to the events of its end and to the
-- keys handed to executors, and the guards of packages/db/migrations/0011_approval_guards.sql on them.
use agent_gateway_control.Prelude.{
  ℕ, String, ◌<◌, Bool, true, false, Option, none, some, List, [], ◌∷◌, ◌++◌, includes, is_some,
  ◌≡◌,
}
use agent_gateway_control.Approvals.Requests.{ApprovalStatus, ApprovalRow, is_pending}
use agent_gateway_control.Approvals.Actions.{ToolActionStatus, ToolActionRow}
use agent_gateway_control.Approvals.Case.{ApprovalOutcome, Case}
use agent_gateway_control.Approvals.Resolve.{approval_outcome}
use agent_gateway_control.Approvals.Execution.{Env}
use agent_gateway_control.Approvals.Decide.{ApprovalReply, decided, queued_action}
use agent_gateway_control.Approvals.Begin.{running_since}

pub record Core (R : Type 0) : Type 0 where
  pub approval : ApprovalRow
  pub action : Option (ToolActionRow R)
  pub resolved_events : List ApprovalOutcome
  pub begun : List String

-- approval_requests_guard: a column that is set is final.
abbrev pub IsKept {ℓ} : {A : Type ℓ} → Option A → Option A → Type ℓ
IsKept old new = is_some old ≡ true → new ≡ old

-- An update of approval_requests that approval_requests_guard lets through.
pub record ApprovalGuard (old : ApprovalRow) (new : ApprovalRow) : Type 0 where
  pub id : new.id ≡ old.id
  pub requested_by_agent_id : new.requested_by_agent_id ≡ old.requested_by_agent_id
  pub run_id : new.run_id ≡ old.run_id
  pub action_type : new.action_type ≡ old.action_type
  pub action_params : new.action_params ≡ old.action_params
  pub immutable_action_hash : new.immutable_action_hash ≡ old.immutable_action_hash
  pub allowed_approver_user_ids : new.allowed_approver_user_ids ≡ old.allowed_approver_user_ids
  pub nonce : new.nonce ≡ old.nonce
  pub created_at : new.created_at ≡ old.created_at
  pub expires_at : new.expires_at ≡ old.expires_at
  pub decided_by_user_id : IsKept old.decided_by_user_id new.decided_by_user_id
  pub decided_at : IsKept old.decided_at new.decided_at
  pub decision_post_id : IsKept old.decision_post_id new.decision_post_id
  pub resolved_at : IsKept old.resolved_at new.resolved_at
  pub status : is_pending old.status ≡ false → new.status ≡ old.status

-- The moves of tool_actions_guard, and no move.
abbrev pub is_forward : ToolActionStatus → ToolActionStatus → Bool
is_forward ToolActionStatus.queued ToolActionStatus.queued = true
is_forward ToolActionStatus.queued ToolActionStatus.running = true
is_forward ToolActionStatus.queued ToolActionStatus.failed = true
is_forward ToolActionStatus.queued ToolActionStatus.cancelled = true
is_forward ToolActionStatus.running ToolActionStatus.running = true
is_forward ToolActionStatus.running ToolActionStatus.succeeded = true
is_forward ToolActionStatus.running ToolActionStatus.failed = true
is_forward ToolActionStatus.running ToolActionStatus.unknown = true
is_forward ToolActionStatus.unknown ToolActionStatus.unknown = true
is_forward ToolActionStatus.unknown ToolActionStatus.succeeded = true
is_forward ToolActionStatus.unknown ToolActionStatus.failed = true
is_forward ToolActionStatus.unknown ToolActionStatus.cancelled = true
is_forward ToolActionStatus.succeeded ToolActionStatus.succeeded = true
is_forward ToolActionStatus.failed ToolActionStatus.failed = true
is_forward ToolActionStatus.cancelled ToolActionStatus.cancelled = true
is_forward _ _ = false

abbrev pub is_run : ToolActionStatus → Bool
is_run ToolActionStatus.running = true
is_run _ = false

-- Ends without a decision.
abbrev pub is_closed : ApprovalStatus → Bool
is_closed ApprovalStatus.expired = true
is_closed ApprovalStatus.cancelled = true
is_closed _ = false

module _ {R : Type 0} where
  -- An update of tool_actions that tool_actions_guard lets through.
  pub record ActionGuard (old : ToolActionRow R) (new : ToolActionRow R) : Type 0 where
    pub id : new.id ≡ old.id
    pub approval_id : new.approval_id ≡ old.approval_id
    pub agent_id : new.agent_id ≡ old.agent_id
    pub namespace : new.namespace ≡ old.namespace
    pub action_type : new.action_type ≡ old.action_type
    pub action_params : new.action_params ≡ old.action_params
    pub immutable_action_hash : new.immutable_action_hash ≡ old.immutable_action_hash
    pub idempotency_key : new.idempotency_key ≡ old.idempotency_key
    pub config_version : new.config_version ≡ old.config_version
    pub deadline_at : new.deadline_at ≡ old.deadline_at
    pub status : is_forward old.status new.status ≡ true

  abbrev pub core : Case R → Core R
  core c = record {
    approval = c.approval;
    action = c.action;
    resolved_events = c.resolved_events;
    begun = c.begun;
  }

  pub data Write : Core R → Core R → Type 0 where
    deny :
        (k : Core R) (env : Env) (reply : ApprovalReply)
        → k.approval.status ≡ ApprovalStatus.pending
        → Write k (record k { approval = decided ApprovalStatus.denied env reply k.approval })
    grant :
        (k : Core R) (env : Env) (reply : ApprovalReply) (id namespace version : String)
        → k.approval.status ≡ ApprovalStatus.pending
        → includes k.approval.allowed_approver_user_ids reply.user_id ≡ true
        → env.now < k.approval.expires_at
        → Write k (record k {
          approval = decided ApprovalStatus.granted env reply k.approval;
          action = some (queued_action env id namespace version k.approval);
        })
    refuse :
        (k : Core R) (post_id : String)
        → k.approval.status ≡ ApprovalStatus.pending
        → Write k (record k {
          approval = record k.approval {
            status = ApprovalStatus.cancelled;
            decision_post_id = some post_id;
          };
        })
    close :
        (k : Core R) (status : ApprovalStatus)
        → k.approval.status ≡ ApprovalStatus.pending
        → is_closed status ≡ true
        → Write k (record k { approval = record k.approval { status = status } })
    begin :
        (k : Core R) (now : ℕ) (a : ToolActionRow R)
        → k.action ≡ some a
        → a.status ≡ ToolActionStatus.queued
        → k.approval.status ≡ ApprovalStatus.granted
        → Write k (record k {
          action = some (running_since now a);
          begun = k.begun ++ a.idempotency_key ∷ [];
        })
    move :
        (k : Core R) (a moved : ToolActionRow R)
        → k.action ≡ some a
        → ActionGuard a moved
        → moved.started_at ≡ a.started_at
        → (is_run moved.status ≡ true → a.status ≡ moved.status)
        → Write k (record k { action = some moved })
    resolve :
        (k : Core R) (now : ℕ) (outcome : ApprovalOutcome)
        → k.approval.resolved_at ≡ none
        → approval_outcome k.approval.status k.action ≡ some outcome
        → Write k (record k {
          approval = record k.approval { resolved_at = some now };
          resolved_events = k.resolved_events ++ outcome ∷ [];
        })

  pub data Writes (k : Core R) : Core R → Type 0 where
    here : Writes k k
    next : {l m : Core R} → Writes k l → Write l m → Writes k m

  pub Writes-append : {k l m : Core R} → Writes k l → Writes l m → Writes k m
  Writes-append r here = r
  Writes-append r (next s w) = next (Writes-append r s) w
