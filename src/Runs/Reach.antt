-- ===== src/Runs/Reach.antt =====
-- The reach of a result without scope issues.
use mathlib.Core.Option.{some-injective}
use agent_gateway_control.Prelude.{
  ℕ, ◌+◌, String, str_eq, starts_with, eq_iff, ◌≡◌, refl, sym, ap, ◌∙◌, ◌⊎◌, inl, inr, true, false,
  Option, none, some, List, [], ◌∷◌, any, All, includes, is_some, arith, Bool-cases,
}
use agent_gateway_control.Prelude.Maps.{lookup}
use agent_gateway_control.Events.Types.{type_name}
use agent_gateway_control.Events.Envelope.{GatewayEvent, Schemas}
use agent_gateway_control.Waits.Matching.{WaitCondition}
use agent_gateway_control.Runs.Scope.{
  ThreadScope, RunScope, PublicMessage, TurnReach, run_scope, message_issues, wait_issues,
  ThreadRef, completion_scope, messages_from, waits_from, check_run_scope,
}
use agent_gateway_control.Runs.Lookups.{
  lookup-put, includes-add_id, thread_issues-none, no_wait_issue, append-nil, posted_in,
  threads_from, correlations_from,
}

module _ {J : Type 0} (schemas : Schemas J) where
  module _ (events : List (GatewayEvent J)) (ref : Option ThreadRef)
      (correlation_of : ThreadRef → String) where
    -- The scope that the completion of the run is checked against.
    abbrev pub scope_of : RunScope
    scope_of = completion_scope ref correlation_of (run_scope schemas events)

    -- The context of the run was assembled from this thread of the channel.
    abbrev pub IsContextThread : String → String → Type 0
    IsContextThread root channel =
        (thread : ThreadRef) × (ref ≡ some thread)
        × (thread.root_post_id ≡ root)
        × (thread.channel_id ≡ channel)

    -- The store has the correlation for the context's thread.
    abbrev pub IsContextCorrelation : String → Type 0
    IsContextCorrelation id =
        (thread : ThreadRef) × (ref ≡ some thread) × (correlation_of thread ≡ id)

    abbrev pub IsReplyInRun : PublicMessage → Type 0
    IsReplyInRun message =
        (root : String)
        → message.root_post_id ≡ some root
        → (any (posted_in schemas root message.channel_id) events ≡ true)
          ⊎ IsContextThread root message.channel_id

    abbrev pub IsWaitInRun : WaitCondition → Type 0
    IsWaitInRun wait =
        (starts_with (type_name wait.event_type) "approval." ≡ false)
        × ((any (λ event. str_eq event.correlationid wait.correlation_id) events ≡ true)
            ⊎ IsContextCorrelation wait.correlation_id)

    own_thread :
        (root : String) (t : ThreadScope)
        → lookup root (run_scope schemas events).thread_roots ≡ some t
        → any (posted_in schemas root t.channel_id) events ≡ true
    unfolding run_scope
    own_thread root t h =
        elim (threads_from schemas events
          (record { correlation_ids = []; thread_roots = []; max_hop = 0 }) root t h) [
            | inl bad ↦ absurd (ground (arith, bad))
            | inr posted ↦ posted
          ]

    own_correlation :
        (id : String)
        → includes (run_scope schemas events).correlation_ids id ≡ true
        → any (λ event. str_eq event.correlationid id) events ≡ true
    unfolding run_scope
    own_correlation id h =
        elim (correlations_from schemas events
          (record { correlation_ids = []; thread_roots = []; max_hop = 0 }) id h) [
            | inl bad ↦ absurd (ground (arith, bad))
            | inr carried ↦ carried
          ]

  scope-thread :
      (events : List (GatewayEvent J)) (ref : Option ThreadRef)
      (correlation_of : ThreadRef → String) (root : String) (t : ThreadScope)
      → lookup root (scope_of events ref correlation_of).thread_roots ≡ some t
      → (any (posted_in schemas root t.channel_id) events ≡ true)
        ⊎ IsContextThread events ref correlation_of root t.channel_id
  unfolding completion_scope
  scope-thread events none correlation_of root t h =
      inl (own_thread events none correlation_of root t h)
  scope-thread events (some thread) correlation_of root t h =
      let own = run_scope schemas events in
      elim (Bool-cases (is_some (lookup thread.root_post_id own.thread_roots))) [
        | inl e ↦ inl (own_thread events none correlation_of root t (rw e at h))
        | inr e ↦
            let v : ThreadScope = record {
              channel_id = thread.channel_id;
              correlation_id = correlation_of thread;
            } in
            let found = rw e at h in
            let set = sym (lookup-put root thread.root_post_id v own.thread_roots) ∙ found in
            elim (Bool-cases (str_eq thread.root_post_id root)) [
              | inl q ↦
                  let same : some v ≡ some t = rw q at set in
                  inr (
                    thread,
                    refl,
                    (eq_iff thread.root_post_id root).0 q,
                    ap (λ x. x.channel_id) (some-injective v t same),
                  )
              | inr q ↦ inl (own_thread events none correlation_of root t (rw q at set))
            ]
      ]

  scope-correlation :
      (events : List (GatewayEvent J)) (ref : Option ThreadRef)
      (correlation_of : ThreadRef → String) (id : String)
      → includes (scope_of events ref correlation_of).correlation_ids id ≡ true
      → (any (λ event. str_eq event.correlationid id) events ≡ true)
        ⊎ IsContextCorrelation events ref correlation_of id
  unfolding completion_scope
  scope-correlation events none correlation_of id h =
      inl (own_correlation events none correlation_of id h)
  scope-correlation events (some thread) correlation_of id h =
      let own = run_scope schemas events in
      elim (Bool-cases (is_some (lookup thread.root_post_id own.thread_roots))) [
        | inl e ↦ inl (own_correlation events none correlation_of id (rw e at h))
        | inr e ↦
            let found = rw e at h in
            elim (includes-add_id own.correlation_ids (correlation_of thread) id found) [
              | inl o ↦ inl (own_correlation events none correlation_of id o)
              | inr q ↦ inr (thread, refl, (eq_iff (correlation_of thread) id).0 q)
            ]
      ]

  module _ (events : List (GatewayEvent J)) (ref : Option ThreadRef)
      (correlation_of : ThreadRef → String) where
    message-IsReplyInRun :
        (i : ℕ) (message : PublicMessage)
        → message_issues
            (scope_of events ref correlation_of)
            i
            message.channel_id
            message.root_post_id
          ≡ []
        → IsReplyInRun events ref correlation_of message
    message-IsReplyInRun i message h root e =
        let found =
          thread_issues-none i root message.channel_id
            (lookup root (scope_of events ref correlation_of).thread_roots) (rw e at h) in
        rw (sym found.1.1) (scope-thread events ref correlation_of root found.0 found.1.0)

    messages_from-AreInRun :
        (i : ℕ) (messages : List PublicMessage)
        → messages_from (scope_of events ref correlation_of) i messages ≡ []
        → All (IsReplyInRun events ref correlation_of) messages
    messages_from-AreInRun i [] h = tt
    messages_from-AreInRun i (m ∷ ms) h =
        let scope = scope_of events ref correlation_of in
        let parts =
          append-nil (message_issues scope i m.channel_id m.root_post_id)
            (messages_from scope (i + 1) ms) h in
        (message-IsReplyInRun i m parts.0, messages_from-AreInRun (i + 1) ms parts.1)

    wait-IsWaitInRun :
        (i : ℕ) (wait : WaitCondition)
        → wait_issues (scope_of events ref correlation_of) i wait ≡ []
        → IsWaitInRun events ref correlation_of wait
    wait-IsWaitInRun i wait h =
        let approval = starts_with (type_name wait.event_type) "approval." in
        let known =
          includes (scope_of events ref correlation_of).correlation_ids wait.correlation_id in
        let both = no_wait_issue i wait.correlation_id approval known h in
        (both.0, scope-correlation events ref correlation_of wait.correlation_id both.1)

    waits_from-AreInRun :
        (i : ℕ) (waits : List WaitCondition)
        → waits_from (scope_of events ref correlation_of) i waits ≡ []
        → All (IsWaitInRun events ref correlation_of) waits
    waits_from-AreInRun i [] h = tt
    waits_from-AreInRun i (w ∷ ws) h =
        let scope = scope_of events ref correlation_of in
        let parts = append-nil (wait_issues scope i w) (waits_from scope (i + 1) ws) h in
        (wait-IsWaitInRun i w parts.0, waits_from-AreInRun (i + 1) ws parts.1)

    -- A result that passes the scope check of a completion stays within the run's own events and the
    -- thread of its context: each of its replies goes to a thread that a post among the events belongs
    -- to, in that post's channel, or to the context's thread in its channel; and each of its waits is
    -- no approval wait and names a correlation that one of the events carries, or that the store has
    -- for the context's thread.
    pub check_run_scope_lem :
        (result : TurnReach)
        → check_run_scope result (completion_scope ref correlation_of (run_scope schemas events))
          ≡ []
        → All (IsReplyInRun events ref correlation_of) result.public_messages
          × All (IsWaitInRun events ref correlation_of) result.waits
    unfolding check_run_scope
    check_run_scope_lem result h =
        let scope = scope_of events ref correlation_of in
        let parts =
          append-nil (messages_from scope 0 result.public_messages)
            (waits_from scope 0 result.waits) h in
        (
          messages_from-AreInRun 0 result.public_messages parts.0,
          waits_from-AreInRun 0 result.waits parts.1,
        )
