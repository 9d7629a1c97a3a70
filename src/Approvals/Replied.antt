-- ===== src/Approvals/Replied.antt =====
-- A reply in a card's thread as writes to the rows.
use agent_gateway_control.Prelude.{
  ℕ, ◌<◌, String, str_eq, Bool, true, false, ◌&&◌, not, Option, none, some, List, [], ◌∷◌, ◌≡◌,
  refl, inl, inr, Bool-cases, is_some, includes, arith, leb, any,
}
use agent_gateway_control.Approvals.Requests.{ApprovalStatus, ApprovalRow, is_pending, is_expired}
use agent_gateway_control.Approvals.Case.{
  ApprovalOutcome, Case, audit, raise_alert, post_notice, CardPost,
}
use agent_gateway_control.Approvals.Resolve.{
  approval_outcome, resolve_approval, record_decision, extend_approval_wait, emit_resolved,
}
use agent_gateway_control.Approvals.Execution.{Env}
use agent_gateway_control.Approvals.Codes.{approve, deny, malformed_command}
use agent_gateway_control.Approvals.Decide.{
  ApprovalReply, ApprovalCommand, not_approver, deny_request, refuse_grant, accept_grant,
  grant_request, grant_checked, decide_by, on_lookup, carried_out, decide_code, decide,
  handle_approval_reply, is_key, card_key,
}
use agent_gateway_control.Approvals.Writes.{
  Core, core, Write, Writes, here, next, resolve, Writes-append,
}

pub is_pending-lem : (s : ApprovalStatus) → is_pending s ≡ true → s ≡ ApprovalStatus.pending
is_pending-lem s h = ground arith

is_some-false : {A : Type 0} (o : Option A) → is_some o ≡ false → o ≡ none
is_some-false o h = ground arith

not_approver-includes :
    (env : Env) (approval : ApprovalRow) (reply : ApprovalReply)
    → not_approver env approval reply ≡ none
    → includes approval.allowed_approver_user_ids reply.user_id ≡ true
unfolding not_approver
not_approver-includes env approval reply h = ground (arith, h)

module _ {R : Type 0} where
  -- What an update of other columns leaves alone.
  abbrev pub Reaches : Core R → Case R → Type 0
  Reaches k c = Writes k (core c)

  emit_resolved-Writes :
      (now : ℕ) (o : Option ApprovalOutcome) (c : Case R)
      → approval_outcome c.approval.status c.action ≡ o
      → Writes (core c) (core (emit_resolved now o c).0)
  emit_resolved-Writes now none c e = here
  emit_resolved-Writes now (some outcome) c e = elim (Bool-cases (is_some c.approval.resolved_at)) [
    | inl r ↦ rw r here
    | inr n ↦
        rw n (next here (resolve (core c) now outcome (is_some-false c.approval.resolved_at n) e))
  ]

  pub resolve_approval-Writes :
      (now : ℕ) (c : Case R) → Writes (core c) (core (resolve_approval now c).0)
  unfolding resolve_approval
  resolve_approval-Writes now c =
      emit_resolved-Writes now (approval_outcome c.approval.status c.action) c refl

  deny_request-Writes :
      (env : Env) (reply : ApprovalReply) (c : Case R)
      → c.approval.status ≡ ApprovalStatus.pending
      → Writes (core c) (core (deny_request env reply c).0)
  unfolding deny_request audit record_decision
  deny_request-Writes env reply c p =
      Writes-append (next here (Write.deny (core c) env reply p))
        (resolve_approval-Writes env.now _)

  refuse_grant-Writes :
      (env : Env) (issues : List String) (reply : ApprovalReply) (c : Case R)
      → c.approval.status ≡ ApprovalStatus.pending
      → Writes (core c) (core (refuse_grant env issues reply c).0)
  unfolding refuse_grant audit raise_alert
  refuse_grant-Writes env issues reply c p =
      Writes-append (next here (Write.refuse (core c) reply.post_id p))
        (resolve_approval-Writes env.now _)

  accept_grant-Writes :
      (env : Env) (id namespace version : String) (reply : ApprovalReply) (c : Case R)
      → c.approval.status ≡ ApprovalStatus.pending
      → includes c.approval.allowed_approver_user_ids reply.user_id ≡ true
      → env.now < c.approval.expires_at
      → Writes (core c) (core (accept_grant env id namespace version reply c).0)
  unfolding accept_grant audit record_decision extend_approval_wait
  accept_grant-Writes env id namespace version reply c p i d =
      next here (Write.grant (core c) env reply id namespace version p i d)

  grant_checked-Writes :
      (env : Env) (id : String) (reply : ApprovalReply) (c : Case R)
      (namespace version : Option String) (issues : List String)
      → c.approval.status ≡ ApprovalStatus.pending
      → includes c.approval.allowed_approver_user_ids reply.user_id ≡ true
      → env.now < c.approval.expires_at
      → Writes (core c) (core (grant_checked env id reply c namespace version issues).0)
  grant_checked-Writes env id reply c (some namespace) (some version) [] p i d =
      accept_grant-Writes env id namespace version reply c p i d
  grant_checked-Writes env id reply c (some namespace) (some version) (x ∷ xs) p i d =
      refuse_grant-Writes env (x ∷ xs) reply c p
  grant_checked-Writes env id reply c (some namespace) none issues p i d =
      refuse_grant-Writes env issues reply c p
  grant_checked-Writes env id reply c none version issues p i d =
      refuse_grant-Writes env issues reply c p

  module _ (digest : String → List (String × String) → String)
      (code_of : ApprovalRow → String) where
    carried_out-Writes :
        (env : Env) (id : String) (reply : ApprovalReply) (approving : Bool) (c : Case R)
        → c.approval.status ≡ ApprovalStatus.pending
        → includes c.approval.allowed_approver_user_ids reply.user_id ≡ true
        → env.now < c.approval.expires_at
        → Writes (core c) (core (carried_out digest code_of env id reply approving c).0)
    unfolding grant_request
    carried_out-Writes env id reply false c p i d = deny_request-Writes env reply c p
    carried_out-Writes env id reply true c p i d = grant_checked-Writes env id reply c _ _ _ p i d

    decide_code-Writes :
        (env : Env) (id : String) (reply : ApprovalReply) (approving : Bool) (code : String)
        (c : Case R)
        → includes c.approval.allowed_approver_user_ids reply.user_id ≡ true
        → Writes (core c) (core (decide_code digest code_of env id reply approving code c).0)
    unfolding audit
    decide_code-Writes env id reply approving code c i =
        elim (Bool-cases (str_eq code (code_of c.approval))) [
          | inr e ↦ rw e here
          | inl e ↦ elim (Bool-cases (is_expired c.approval.status)) [
            | inl x ↦ rw (e, x) here
            | inr x ↦ elim (Bool-cases (is_pending c.approval.status)) [
              | inr n ↦ rw (e, x, n) here
              | inl p ↦ elim (Bool-cases (leb c.approval.expires_at env.now)) [
                | inl l ↦ rw (e, x, p, l) here
                | inr l ↦
                    rw (e, x, p, l)
                      (carried_out-Writes env id reply approving c
                        (is_pending-lem c.approval.status p) i (ground (arith, l)))
              ]
            ]
          ]
        ]

    decide_by-Writes :
        (refusal : Option String) (env : Env) (id : String) (reply : ApprovalReply)
        (command : ApprovalCommand) (c : Case R)
        → not_approver env c.approval reply ≡ refusal
        → Writes (core c) (core (decide_by digest code_of refusal env id reply command c).0)
    unfolding audit raise_alert
    decide_by-Writes (some refusal) env id reply command c e = here
    decide_by-Writes none env id reply malformed_command c e = here
    decide_by-Writes none env id reply (approve code) c e =
        decide_code-Writes env id reply true code c (not_approver-includes env c.approval reply e)
    decide_by-Writes none env id reply (deny code) c e =
        decide_code-Writes env id reply false code c (not_approver-includes env c.approval reply e)

    on_lookup-Writes :
        (card : Option CardPost) (env : Env) (id : String) (reply : ApprovalReply)
        (command : ApprovalCommand) (c : Case R)
        → Writes (core c) (core (on_lookup digest code_of card env id reply command c).0)
    unfolding post_notice decide
    on_lookup-Writes none env id reply command c =
        elim (Bool-cases (is_key reply.root_card_key (card_key c.approval) && not c.card_dead)) [
          | inl e ↦ rw e here
          | inr e ↦ rw e here
        ]
    on_lookup-Writes (some card) env id reply command c =
        elim (Bool-cases
          (str_eq card.post_id reply.root_post_id && str_eq card.channel_id reply.channel_id)) [
            | inr e ↦ rw e here
            | inl e ↦ elim (Bool-cases (any (λ r. str_eq r.0 reply.post_id) c.replies)) [
              | inl seen ↦ rw (e, seen) here
              | inr new ↦
                  rw (e, new)
                    (decide_by-Writes (not_approver env c.approval reply) env id reply command c
                      refl)
            ]
          ]

    pub handle_approval_reply-Writes :
        (env : Env) (id : String) (reply : ApprovalReply) (command : Option ApprovalCommand)
        (c : Case R)
        → Writes (core c) (core (handle_approval_reply digest code_of env id reply command c).0)
    unfolding handle_approval_reply
    handle_approval_reply-Writes env id reply none c = here
    handle_approval_reply-Writes env id reply (some command) c =
        on_lookup-Writes c.card env id reply command c
