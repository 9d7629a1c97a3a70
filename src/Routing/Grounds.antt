-- ===== src/Routing/Grounds.antt =====
-- What the candidates of an event rest on: packages/core/src/routing.ts.
use agent_gateway_control.Prelude.{
  ℕ, suc, String, str_eq, eq_iff, ◌≡◌, refl, Bool, true, false, Option, none, some, List, [], ◌∷◌,
  ◌++◌, All, All-imp, All-filter, All-append, All-map, get_elem?, any, includes, map, filter, arith,
  inl, inr, Option-cases, Bool-cases, if◌then◌else◌, not, ◌&&◌, is_some, is_none, sym, ◌∙◌, ap,
}
use mathlib.Core.Path.{subst}
use mathlib.Core.Option.{some-injective}
use agent_gateway_control.Prelude.Sort.{sort, All-sort}
use agent_gateway_control.Events.Types.{
  same_type, wait_timeout, type_starts_with, is_reserved_event_type,
}
use agent_gateway_control.Events.Envelope.{
  Schemas, GatewayEvent, WaitTimeoutData, is_gateway_emitted, event_targets,
}
use agent_gateway_control.Waits.Matching.{ActiveWait, wait_matches}
use agent_gateway_control.Routing.Model.{
  RoutingAgent, WakeRule, RoutingInput, Candidate, CandidateReason, matched, timed_out, targeted,
  subscribed,
}
use agent_gateway_control.Routing.Candidates.{
  find_wait, timeout_candidates, by_agent, matched_candidate, earlier, subscribes, wait_candidates,
  wake_candidates_from, wake_candidates,
}
use agent_gateway_control.Routing.Guards.{is_targeted, is_subscribed}
use agent_gateway_control.Routing.Route.{known, by_id, candidate_id, wait_routes, candidates}

-- The element stands in the list.
abbrev pub IsAmong {ℓ} : {A : Type ℓ} → List A → A → Type ℓ
IsAmong xs x = (i : ℕ) × (get_elem? xs i ≡ some x)

any-IsAmong {ℓ} :
    {A : Type ℓ} (p : A → Bool) (xs : List A)
    → any p xs ≡ true
    → (x : A) × IsAmong xs x × (p x ≡ true)
any-IsAmong p [] h = absurd (ground (arith, h))
any-IsAmong p (y ∷ ys) h = elim (Bool-cases (p y)) [
  | inl e ↦ (y, (0, refl), e)
  | inr e ↦ let (x, (i, at), e') = any-IsAmong p ys (rw e at h) in (x, (suc i, at), e')
]

pub All-IsAmong {ℓ} : {A : Type ℓ} (ws : List A) → All (IsAmong ws) ws
All-IsAmong [] = tt
All-IsAmong (w ∷ ws) = (
  (0, refl),
  All-imp (IsAmong ws) (IsAmong (w ∷ ws)) ws (λ x (i, e). (suc i, e)) (All-IsAmong ws),
)

-- The agent has an untargeted wake rule for the event's type, which is neither reserved to the Gateway
-- nor a type of Mattermost.
abbrev pub IsSubscription : {J : Type 0} → GatewayEvent J → RoutingAgent → Type 0
IsSubscription event a =
    (is_reserved_event_type event.type ≡ false)
    × (type_starts_with event.type "mattermost." ≡ false)
    × ((rule : WakeRule) × IsAmong a.wake_rules rule
        × (rule.target_agent_id ≡ none)
        × (same_type rule.event_type event.type ≡ true))

untargeted : (o : Option String) → is_none o ≡ true → o ≡ none
untargeted none h = refl
untargeted (some x) h = absurd (ground (arith, h))

subscribes-IsSubscription :
    {J : Type 0} (event : GatewayEvent J) (a : RoutingAgent)
    → subscribes a event ≡ true
    → IsSubscription event a
unfolding subscribes
subscribes-IsSubscription event a h =
    let (rule, there, fits) =
      any-IsAmong (λ (r : WakeRule). is_none r.target_agent_id && same_type r.event_type event.type)
        a.wake_rules (ground (arith, h)) in
    (
      ground (arith, h),
      ground (arith, h),
      (rule, there, untargeted rule.target_agent_id (ground (arith, fits)), ground (arith, fits)),
    )

module _ {J : Type 0} (schemas : Schemas J) (input : RoutingInput J) where
  -- What a candidate rests on: a wait that the event matches, the Gateway's timeout of a wait that is
  -- there, which names the wait and its agent, an address, or a subscription of a configured agent.
  abbrev pub HasGround : CandidateReason → String → Option String → Type 0
  HasGround matched agent wait_id =
      (w : ActiveWait) × IsAmong input.waits w
      × (w.agent_id ≡ agent)
      × (wait_id ≡ some w.id)
      × (wait_matches schemas w input.event input.now ≡ true)
  HasGround timed_out agent wait_id =
      (w : ActiveWait) × IsAmong input.waits w
      × (w.agent_id ≡ agent)
      × (wait_id ≡ some w.id)
      × (is_gateway_emitted input.event ≡ true)
      × (same_type input.event.type wait_timeout ≡ true)
      × ((timeout : WaitTimeoutData) × (schemas.parse_wait_timeout input.event.payload
            ≡ some timeout)
          × (timeout.wait_id ≡ w.id)
          × (timeout.agent_id ≡ agent))
  HasGround targeted agent wait_id =
      (includes (event_targets schemas input.event) agent ≡ true) × (wait_id ≡ none)
  HasGround subscribed agent wait_id =
      (a : RoutingAgent) × IsAmong input.agents a
      × (a.id ≡ agent)
      × (wait_id ≡ none)
      × IsSubscription input.event a

  abbrev pub IsGrounded : Candidate → Type 0
  IsGrounded c = HasGround c.reason c.agent_id c.wait_id

  abbrev matches : ActiveWait → Bool
  matches w = wait_matches schemas w input.event input.now

  abbrev IsMatch : ActiveWait → Type 0
  IsMatch w = IsAmong input.waits w × (matches w ≡ true)

  by_agent-IsMatch :
      (taken ws : List ActiveWait)
      → All IsMatch taken
      → All (IsAmong input.waits) ws
      → All IsMatch (by_agent matches taken ws)
  unfolding by_agent
  by_agent-IsMatch taken [] t h = t
  by_agent-IsMatch taken (w ∷ ws) t h =
      elim (Bool-cases (not (any (λ x. str_eq x.agent_id w.agent_id) taken) && matches w)) [
        | inl e ↦ rw e (
            by_agent-IsMatch (taken ++ w ∷ []) ws
              (All-append IsMatch taken (w ∷ []) t ((h.0, ground arith), tt)) h.1)
        | inr e ↦ rw e (by_agent-IsMatch taken ws t h.1)
      ]

  find_wait-id :
      (id : String) (ws : List ActiveWait) {w : ActiveWait} → find_wait id ws ≡ some w → id ≡ w.id
  find_wait-id id [] e = absurd (ground arith)
  find_wait-id id (x ∷ ws) {w} e = elim (Bool-cases (str_eq x.id id)) [
    | inl t ↦ sym ((eq_iff x.id id).0 t) ∙ ap (λ y. y.id) (some-injective x w (rw t at e))
    | inr f ↦ find_wait-id id ws (rw f at e)
  ]

  find_wait-IsAmong :
      (id : String) (ws : List ActiveWait) {w : ActiveWait}
      → All (IsAmong input.waits) ws
      → find_wait id ws ≡ some w
      → IsAmong input.waits w
  find_wait-IsAmong id [] h e = absurd (ground arith)
  find_wait-IsAmong id (x ∷ ws) {w} h e = elim (Bool-cases (str_eq x.id id)) [
    | inl t ↦ subst (IsAmong input.waits) (some-injective x w (rw t at e)) h.0
    | inr f ↦ find_wait-IsAmong id ws h.1 (rw f at e)
  ]

  timeout-IsGrounded :
      (timeout : Option WaitTimeoutData)
      → schemas.parse_wait_timeout input.event.payload ≡ timeout
      → is_gateway_emitted input.event ≡ true
      → same_type input.event.type wait_timeout ≡ true
      → All IsGrounded (timeout_candidates input.waits timeout)
  unfolding timeout_candidates
  timeout-IsGrounded none p g ty = tt
  timeout-IsGrounded (some timeout) p g ty =
      elim (Option-cases (find_wait timeout.wait_id input.waits)) [
        | inl e ↦ rw (e, timeout_candidates) tt
        | inr (w, e) ↦
            let there = find_wait-IsAmong timeout.wait_id input.waits (All-IsAmong input.waits) e in
            let named = find_wait-id timeout.wait_id input.waits e in
            rw (e, timeout_candidates) (timeout_one w timeout there p named g ty)
      ]
    where
      timeout_one :
          (w : ActiveWait) (timeout : WaitTimeoutData)
          → IsAmong input.waits w
          → schemas.parse_wait_timeout input.event.payload ≡ some timeout
          → timeout.wait_id ≡ w.id
          → is_gateway_emitted input.event ≡ true
          → same_type input.event.type wait_timeout ≡ true
          → All IsGrounded (
              if str_eq w.agent_id timeout.agent_id
              then (record { agent_id = w.agent_id; reason = timed_out; wait_id = some w.id }) ∷ []
              else [])
      timeout_one w timeout there p named g ty =
          elim (Bool-cases (str_eq w.agent_id timeout.agent_id)) [
            | inl t ↦ rw t (
              (
                w,
                there,
                refl,
                refl,
                g,
                ty,
                (timeout, p, named, sym ((eq_iff w.agent_id timeout.agent_id).0 t)),
              ),
              tt,
            )
            | inr f ↦ rw f tt
          ]

  pub wait_candidates-IsGrounded : All IsGrounded (wait_candidates schemas input)
  unfolding wait_candidates
  wait_candidates-IsGrounded = elim (Bool-cases (same_type input.event.type wait_timeout)) [
    | inl t ↦ rw t (elim (Bool-cases (is_gateway_emitted input.event)) [
      | inl g ↦ rw g (timeout-IsGrounded (schemas.parse_wait_timeout input.event.payload) refl g t)
      | inr n ↦ rw n tt
    ])
    | inr f ↦ rw f (
        All-map IsGrounded matched_candidate (by_agent matches [] (sort earlier input.waits)) (
          All-imp IsMatch (λ w. IsGrounded (matched_candidate w))
            (by_agent matches [] (sort earlier input.waits))
            (λ w (there, m). (w, there, refl, refl, m))
            (by_agent-IsMatch [] (sort earlier input.waits) tt
              (All-sort earlier (IsAmong input.waits) input.waits (All-IsAmong input.waits)))))
  ]

  pub wake_candidates-IsGrounded :
      (taken : List String) (agents : List RoutingAgent)
      → All (IsAmong input.agents) agents
      → All IsGrounded (wake_candidates_from schemas input.event taken agents)
  unfolding wake_candidates_from
  wake_candidates-IsGrounded taken [] there = tt
  wake_candidates-IsGrounded taken (a ∷ agents) there =
      let rest = wake_candidates-IsGrounded taken agents there.1 in
      elim (Bool-cases (includes taken a.id)) [
        | inl t ↦ rw t rest
        | inr f ↦ rw f (elim (Bool-cases (includes (event_targets schemas input.event) a.id)) [
          | inl t ↦ rw t ((t, refl), rest)
          | inr f ↦ rw f (elim (Bool-cases (subscribes a input.event)) [
            | inl s ↦
                rw s ((a, there.0, refl, refl, subscribes-IsSubscription input.event a s), rest)
            | inr n ↦ rw n rest
          ])
        ])
      ]

  pub candidates-IsGrounded : All IsGrounded (candidates schemas input)
  unfolding candidates wake_candidates
  candidates-IsGrounded =
      let waits =
        All-filter IsGrounded (λ c. is_some (known schemas input c.agent_id))
          (wait_candidates schemas input) wait_candidates-IsGrounded in
      let taken = map candidate_id (wait_routes schemas input) in
      let wakes = wake_candidates-IsGrounded taken input.agents (All-IsAmong input.agents) in
      let all_wakes = wake_candidates_from schemas input.event taken input.agents in
      All-append IsGrounded (sort by_id (wait_routes schemas input)) _
        (All-sort by_id IsGrounded _ waits)
        (All-append IsGrounded (sort by_id (filter (λ c. is_targeted c.reason) all_wakes)) _
          (All-sort by_id IsGrounded _
            (All-filter IsGrounded (λ c. is_targeted c.reason) all_wakes wakes))
          (All-sort by_id IsGrounded _
            (All-filter IsGrounded (λ c. is_subscribed c.reason) all_wakes wakes)))
