-- ===== src/Approvals/Authority.antt =====
-- Who decides a request, and what a grant has been checked against.
use agent_gateway_control.Prelude.{
  ◌<◌, String, str_eq, eq_iff, Bool, true, false, ◌&&◌, not, Option, none, some, List, ◌≡◌, ◌≢◌,
  refl, inl, inr, Bool-cases, includes, arith, leb, any,
}
use agent_gateway_control.Approvals.Requests.{ApprovalStatus, ApprovalRow, is_pending, is_expired}
use agent_gateway_control.Approvals.Case.{Case, CardPost, audit, raise_alert, post_notice}
use agent_gateway_control.Approvals.Execution.{Env}
use agent_gateway_control.Approvals.Codes.{approve, deny, malformed_command}
use agent_gateway_control.Approvals.Decide.{
  ApprovalReply, ApprovalCommand, not_approver, decide_code, decide_by, on_lookup,
  handle_approval_reply, is_key, card_key, decide,
}
use agent_gateway_control.Approvals.Replied.{is_pending-lem}

-- An active human owner who is in the approver snapshot of the request.
pub record IsApprover (env : Env) (approval : ApprovalRow) (reply : ApprovalReply) : Type 0 where
  pub human : reply.is_bot ≡ false
  pub typed : reply.automated ≡ false
  pub active : reply.active ≡ true
  pub in_snapshot : includes approval.allowed_approver_user_ids reply.user_id ≡ true
  pub owner : includes env.owners reply.user_id ≡ true

-- A command with the code of the request.
abbrev pub IsCommandFor : Option ApprovalCommand → String → Type 0
IsCommandFor none code = false ≡ true
IsCommandFor (some (approve c)) code = c ≡ code
IsCommandFor (some (deny c)) code = c ≡ code
IsCommandFor (some malformed_command) code = false ≡ true

not_approver-none :
    (env : Env) (approval : ApprovalRow) (reply : ApprovalReply)
    → not_approver env approval reply ≡ none
    → IsApprover env approval reply
unfolding not_approver
not_approver-none env approval reply h = record {
  human = ground (arith, h);
  typed = ground (arith, h);
  active = ground (arith, h);
  in_snapshot = ground (arith, h);
  owner = ground (arith, h);
}

module _ {R : Type 0} (digest : String → List (String × String) → String)
    (code_of : ApprovalRow → String) where
  -- What must hold for a reply to change the status of a request.
  pub record IsAuthorized (env : Env) (reply : ApprovalReply) (command : Option ApprovalCommand)
      (c : Case R) : Type 0 where
    pub approver : IsApprover env c.approval reply
    pub command_for : IsCommandFor command (code_of c.approval)
    pub undecided : c.approval.status ≡ ApprovalStatus.pending
    pub in_time : env.now < c.approval.expires_at
    pub new_post : any (λ r. str_eq r.0 reply.post_id) c.replies ≡ false

  -- What the guards after the approver check have established.
  decide_code-changed :
      (env : Env) (id : String) (reply : ApprovalReply) (approving : Bool) (code : String)
      (c : Case R)
      → (decide_code digest code_of env id reply approving code c).0.approval.status
        ≢ c.approval.status
      → (code ≡ code_of c.approval)
        × (c.approval.status ≡ ApprovalStatus.pending)
        × (env.now < c.approval.expires_at)
  unfolding audit
  decide_code-changed env id reply approving code c h =
      elim (Bool-cases (str_eq code (code_of c.approval))) [
        | inr e ↦ absurd (h (rw e refl))
        | inl e ↦ elim (Bool-cases (is_expired c.approval.status)) [
          | inl x ↦ absurd (h (rw (e, x) refl))
          | inr x ↦ elim (Bool-cases (is_pending c.approval.status)) [
            | inr n ↦ absurd (h (rw (e, x, n) refl))
            | inl p ↦ elim (Bool-cases (leb c.approval.expires_at env.now)) [
              | inl l ↦ absurd (h (rw (e, x, p, l) refl))
              | inr l ↦ (
                (eq_iff code (code_of c.approval)).0 e,
                is_pending-lem c.approval.status p,
                ground (arith, l),
              )
            ]
          ]
        ]
      ]

  decide_by-changed :
      (refusal : Option String) (env : Env) (id : String) (reply : ApprovalReply)
      (command : ApprovalCommand) (c : Case R)
      → not_approver env c.approval reply ≡ refusal
      → any (λ r. str_eq r.0 reply.post_id) c.replies ≡ false
      → (decide_by digest code_of refusal env id reply command c).0.approval.status
        ≢ c.approval.status
      → IsAuthorized env reply (some command) c
  unfolding audit raise_alert
  decide_by-changed (some refusal) env id reply command c e n h = absurd (h refl)
  decide_by-changed none env id reply malformed_command c e n h = absurd (h refl)
  decide_by-changed none env id reply (approve code) c e n h =
      let d = decide_code-changed env id reply true code c h in
      record {
        approver = not_approver-none env c.approval reply e;
        command_for = d.0;
        undecided = d.1;
        in_time = d.2;
        new_post = n;
      }
  decide_by-changed none env id reply (deny code) c e n h =
      let d = decide_code-changed env id reply false code c h in
      record {
        approver = not_approver-none env c.approval reply e;
        command_for = d.0;
        undecided = d.1;
        in_time = d.2;
        new_post = n;
      }

  on_lookup-changed :
      (card : Option CardPost) (env : Env) (id : String) (reply : ApprovalReply)
      (command : ApprovalCommand) (c : Case R)
      → (on_lookup digest code_of card env id reply command c).0.approval.status ≢ c.approval.status
      → IsAuthorized env reply (some command) c
  unfolding post_notice decide
  on_lookup-changed none env id reply command c h =
      elim (Bool-cases (is_key reply.root_card_key (card_key c.approval) && not c.card_dead)) [
        | inl e ↦ absurd (h (rw e refl))
        | inr e ↦ absurd (h (rw e refl))
      ]
  on_lookup-changed (some card) env id reply command c h =
      elim (Bool-cases
        (str_eq card.post_id reply.root_post_id && str_eq card.channel_id reply.channel_id)) [
          | inr e ↦ absurd (h (rw e refl))
          | inl e ↦ elim (Bool-cases (any (λ r. str_eq r.0 reply.post_id) c.replies)) [
            | inl seen ↦ absurd (h (rw (e, seen) refl))
            | inr new ↦
                decide_by-changed (not_approver env c.approval reply) env id reply command c refl
                  new (rw (e, new) at h)
          ]
        ]

  -- A reply changes the status of a request only when its author is an active human owner of the
  -- approver snapshot, its command carries the code of the request, the request is pending and has not
  -- expired, and the post was not handled before.
  pub decision-IsAuthorized :
      (env : Env) (id : String) (reply : ApprovalReply) (command : Option ApprovalCommand)
      (c : Case R)
      → (handle_approval_reply digest code_of env id reply command c).0.approval.status
        ≢ c.approval.status
      → IsAuthorized env reply command c
  unfolding handle_approval_reply
  decision-IsAuthorized env id reply none c h = absurd (h refl)
  decision-IsAuthorized env id reply (some command) c h =
      on_lookup-changed c.card env id reply command c h
