-- ===== src/Runs/Lookups.antt =====
-- What runScope and checkRunScope of packages/core/src/outcome.ts find.
use mathlib.Core.Option.{some-injective}
use agent_gateway_control.Prelude.{
  ℕ, String, str_eq, eq_iff, ◌≡◌, refl, sym, ap, ◌∙◌, ◌⊎◌, inl, inr, Bool, true, false, ◌&&◌, ◌||◌,
  Option, none, some, List, [], ◌∷◌, ◌++◌, any, includes, arith, Bool-cases, if◌then◌else◌,
}
use agent_gateway_control.Prelude.Maps.{lookup}
use agent_gateway_control.Events.Envelope.{
  GatewayEvent, MattermostPostData, Schemas, mattermost_post,
}
use agent_gateway_control.Waits.Matching.{or_else}
use agent_gateway_control.Runs.Scope.{
  ThreadScope, RunScope, add_id, put, put_post, approval_wait, correlation_not_in_run, with_event,
  run_scope_from, thread_issues,
}

abbrev pub post_in : String → String → Option MattermostPostData → Bool
post_in root channel none = false
post_in root channel (some post) =
    str_eq (or_else post.root_id post.post_id) root && str_eq post.channel_id channel

pub lookup-put :
    (r k : String) (v : ThreadScope) (m : List (String × ThreadScope))
    → lookup r (put k v m) ≡ (if str_eq k r then some v else lookup r m)
lookup-put r k v [] = refl
lookup-put r k v ((j, w) ∷ m) = elim (Bool-cases (str_eq j k)) [
  | inl e ↦ rw (e, (eq_iff j k).0 e) (ground arith)
  | inr e ↦ rw e (ground (arith, lookup-put r k v m, eq_iff j k, eq_iff j r, eq_iff k r))
]

includes-append :
    (xs : List String) (y id : String)
    → includes (xs ++ y ∷ []) id ≡ (includes xs id || str_eq y id)
includes-append [] y id = ground arith
includes-append (x ∷ xs) y id = ground (arith, includes-append xs y id)

-- An id of the set is an old one or the added one.
pub includes-add_id :
    (ids : List String) (x id : String)
    → includes (add_id x ids) id ≡ true
    → (includes ids id ≡ true) ⊎ (str_eq x id ≡ true)
includes-add_id ids x id h = ground (arith, includes-append ids x id)

put_post-lookup :
    (post : Option MattermostPostData) (correlation root : String)
    (roots : List (String × ThreadScope)) (t : ThreadScope)
    → lookup root (put_post post correlation roots) ≡ some t
    → (lookup root roots ≡ some t) ⊎ (post_in root t.channel_id post ≡ true)
put_post-lookup none correlation root roots t h = inl h
put_post-lookup (some post) correlation root roots t h =
    let k = or_else post.root_id post.post_id in
    let v : ThreadScope = record { channel_id = post.channel_id; correlation_id = correlation } in
    let set = sym (lookup-put root k v roots) ∙ h in
    elim (Bool-cases (str_eq k root)) [
      | inl e ↦
          let same : some v ≡ some t = rw e at set in
          inr (
            ground (
              arith,
              (eq_iff v.channel_id t.channel_id).1
                  (ap (λ x. x.channel_id) (some-injective v t same)),
            ))
      | inr e ↦ inl (rw e at set)
    ]

pub thread_issues-none :
    (i : ℕ) (root channel : String) (thread : Option ThreadScope)
    → thread_issues i root channel thread ≡ []
    → (t : ThreadScope) × ((thread ≡ some t) × (t.channel_id ≡ channel))
thread_issues-none i root channel none h = absurd (ground (arith, h))
thread_issues-none i root channel (some t) h = elim (Bool-cases (str_eq t.channel_id channel)) [
  | inl e ↦ (t, (refl, (eq_iff t.channel_id channel).0 e))
  | inr e ↦ absurd (let bad = rw e at h in ground (arith, bad))
]

pub no_wait_issue :
    (i : ℕ) (id : String) (approval known : Bool)
    → (if approval then approval_wait i ∷ [] else [])
        ++ (if known then [] else correlation_not_in_run i id ∷ [])
      ≡ []
    → (approval ≡ false) × (known ≡ true)
no_wait_issue i id true known h = absurd (ground (arith, h))
no_wait_issue i id false true h = (refl, refl)
no_wait_issue i id false false h = absurd (ground (arith, h))

pub append-nil : {A : Type 0} (xs ys : List A) → xs ++ ys ≡ [] → (xs ≡ []) × (ys ≡ [])
append-nil [] ys h = (refl, h)
append-nil (x ∷ xs) ys h = absurd (ground (arith, h))

module _ {J : Type 0} (schemas : Schemas J) where
  -- The event carries a post of the thread, in the channel.
  abbrev pub posted_in : String → String → GatewayEvent J → Bool
  posted_in root channel event = post_in root channel (mattermost_post schemas event)

  pub threads_from :
      (events : List (GatewayEvent J)) (scope : RunScope) (root : String) (t : ThreadScope)
      → lookup root (run_scope_from schemas events scope).thread_roots ≡ some t
      → (lookup root scope.thread_roots ≡ some t)
        ⊎ (any (posted_in root t.channel_id) events ≡ true)
  unfolding run_scope_from with_event
  threads_from [] scope root t h = inl h
  threads_from (event ∷ events) scope root t h =
      elim (threads_from events (with_event schemas event scope) root t h) [
        | inl e ↦ ground (
          arith,
          put_post-lookup (mattermost_post schemas event) event.correlationid root
              scope.thread_roots t e,
        )
        | inr e ↦ ground arith
      ]

  pub correlations_from :
      (events : List (GatewayEvent J)) (scope : RunScope) (id : String)
      → includes (run_scope_from schemas events scope).correlation_ids id ≡ true
      → (includes scope.correlation_ids id ≡ true)
        ⊎ (any (λ event. str_eq event.correlationid id) events ≡ true)
  unfolding run_scope_from with_event
  correlations_from [] scope id h = inl h
  correlations_from (event ∷ events) scope id h =
      elim (correlations_from events (with_event schemas event scope) id h) [
        | inl e ↦ ground (arith, includes-add_id scope.correlation_ids event.correlationid id e)
        | inr e ↦ ground arith
      ]
