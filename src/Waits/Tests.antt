-- ===== src/Waits/Tests.antt =====
-- The wait and the answer of Waits/Sample.antt.
use agent_gateway_control.Prelude.{◌≤◌, ◌≡◌, ◌↔◌, refl, true, false}
use agent_gateway_control.Events.Types.{same_type, is_reserved_event_type, is_post_type}
use agent_gateway_control.Events.Envelope.{mattermost_post}
use agent_gateway_control.Waits.Matching.{wait_matches}
use agent_gateway_control.Waits.Sample.{posts, answer, question}
use agent_gateway_control.Waits.Answers.{Answers, wait_matches_iff}
use agent_gateway_control.Waits.Timeout.{clamp_wait_timeout, clamp_wait_timeout_lem}

answered : wait_matches posts question answer 6000 ≡ true
unfolding wait_matches mattermost_post same_type is_reserved_event_type is_post_type
answered = refl

too_late : wait_matches posts question answer 90000 ≡ false
unfolding wait_matches mattermost_post same_type is_reserved_event_type is_post_type
too_late = refl

wait_matches_iff_example :
    (wait_matches posts question answer 6000 ≡ true) ↔ Answers posts question answer 6000
wait_matches_iff_example = wait_matches_iff posts question answer 6000

clamp_wait_timeout_lem_example :
    let clamped = clamp_wait_timeout 0 1000 in
    (61000 ≤ clamped)
    × (clamped ≤ 604801000)
    × (61000 ≤ 0 → 0 ≤ 604801000 → clamped ≡ 0)
    × (0 ≤ 70000 → clamped ≤ clamp_wait_timeout 70000 1000)
    × (clamp_wait_timeout clamped 1000 ≡ clamped)
clamp_wait_timeout_lem_example = clamp_wait_timeout_lem 0 70000 1000
