-- ===== src/Approvals/Kept.antt =====
-- The writes of the handlers of approvals.ts and the invariant of the rows.
use agent_gateway_control.Prelude.{ℕ, true, false, none, some, [], ◌∷◌, ◌++◌, ◌≡◌, refl, arith}
use agent_gateway_control.Approvals.Requests.{ApprovalStatus, is_pending, is_granted}
use agent_gateway_control.Approvals.Actions.{ToolActionStatus, ToolActionRow}
use agent_gateway_control.Approvals.Resolve.{approval_outcome}
use agent_gateway_control.Approvals.Decide.{queued_action}
use agent_gateway_control.Approvals.Begin.{running_since}
use agent_gateway_control.Approvals.Writes.{
  Core, ActionGuard, is_run, is_closed, Write, Writes, deny, grant, refuse, close, begin, move,
  resolve, here, next,
}
use agent_gateway_control.Approvals.Invariant.{
  WellFormed, ActionFor, pending-no_action, pending-unresolved, resolve-WellFormed,
  close-WellFormed, move-ActionFor, forward-IsStarted, forward-outcome,
}

closed-not_open :
    (s : ApprovalStatus) → is_closed s ≡ true → (is_pending s ≡ false) × (is_granted s ≡ false)
closed-not_open s h = ground arith

module _ {R : Type 0} where
  move-WellFormed :
      (k : Core R) (a moved : ToolActionRow R)
      → k.action ≡ some a
      → ActionGuard a moved
      → moved.started_at ≡ a.started_at
      → (is_run moved.status ≡ true → a.status ≡ moved.status)
      → WellFormed k
      → WellFormed (record k { action = some moved })
  unfolding approval_outcome
  move-WellFormed k a moved e g t r w =
      let f : ActionFor k.approval k.begun (some a) = let old = w.action_for in rw e at old in
      record {
        undecided = w.undecided;
        approved = w.approved;
        one_event = w.one_event;
        ended = λ h.
            let o = w.ended h in
            let o2 = rw (e, f.0) at o in rw f.0 (forward-outcome a.status moved.status g.status o2);
        action_for =
            move-ActionFor k.approval k.begun a moved g t
              (rw t (forward-IsStarted a.status moved.status a.started_at g.status r f.1.started))
              f;
      }

  begin-WellFormed :
      (k : Core R) (now : ℕ) (a : ToolActionRow R)
      → k.action ≡ some a
      → a.status ≡ ToolActionStatus.queued
      → k.approval.status ≡ ApprovalStatus.granted
      → WellFormed k
      → WellFormed (record k {
        action = some (running_since now a);
        begun = k.begun ++ a.idempotency_key ∷ [];
      })
  unfolding approval_outcome
  begin-WellFormed k now a e q s w =
      let f : ActionFor k.approval k.begun (some a) = let old = w.action_for in rw e at old in
      let idle : a.started_at ≡ none = let st = f.1.started in rw q at st in
      let none_begun : k.begun ≡ [] = let b = f.2 in rw idle at b in
      record {
        undecided = w.undecided;
        approved = w.approved;
        one_event = w.one_event;
        ended =
            λ h. let o = w.ended h in absurd (let bad = rw (e, s, q) at o in ground (arith, bad));
        action_for = (
          s,
          record {
            approval_id = f.1.approval_id;
            action_type = f.1.action_type;
            action_params = f.1.action_params;
            hash = f.1.hash;
            key = f.1.key;
            started = refl;
          },
          rw none_begun refl,
        );
      }

  pub Write-WellFormed : {k l : Core R} → Write k l → WellFormed k → WellFormed l
  unfolding queued_action
  Write-WellFormed (deny k env reply p) w = close-WellFormed k _ p refl refl refl w
  Write-WellFormed (grant k env reply id namespace version p i d) w =
      let n = pending-unresolved k w p in
      let gone = pending-no_action k.approval k.begun k.action p w.action_for in
      record {
        undecided = λ s. absurd (ground (arith, s));
        approved = λ s. (reply.user_id, refl, i);
        one_event = w.one_event;
        ended = λ h. absurd (let bad = rw n at h in ground (arith, bad));
        action_for = (
          refl,
          record {
            approval_id = refl;
            action_type = refl;
            action_params = refl;
            hash = refl;
            key = refl;
            started = refl;
          },
          gone.1,
        );
      }
  Write-WellFormed (refuse k post_id p) w = close-WellFormed k _ p refl refl refl w
  Write-WellFormed (close k status p c) w =
      let o = closed-not_open status c in close-WellFormed k _ p o.0 o.1 refl w
  Write-WellFormed (begin k now a e q s) w = begin-WellFormed k now a e q s w
  Write-WellFormed (move k a moved e g t r) w = move-WellFormed k a moved e g t r w
  Write-WellFormed (resolve k now outcome n o) w = resolve-WellFormed k now outcome n o w

  pub Writes-WellFormed : {k l : Core R} → Writes k l → WellFormed k → WellFormed l
  Writes-WellFormed here w = w
  Writes-WellFormed (next r s) w = Write-WellFormed s (Writes-WellFormed r w)
