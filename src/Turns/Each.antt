-- ===== src/Turns/Each.antt =====
-- Checks over a list, as in checkTurnResultAuthority of packages/contracts/src/turn-authority.ts.
use agent_gateway_control.Prelude.{
  ℕ, suc, Bool, true, false, List, [], ◌∷◌, ◌++◌, ◌≡◌, ◌↔◌, refl, All, arith,
}
use agent_gateway_control.Turns.Result.{TurnAuthorityIssue}
use agent_gateway_control.Turns.Check.{for_each, unless}

pub append_nil_iff : (xs ys : List TurnAuthorityIssue) → (xs ++ ys ≡ []) ↔ ((xs ≡ []) × (ys ≡ []))
append_nil_iff [] ys = (λ h. (refl, h), λ h. h.1)
append_nil_iff (x ∷ xs) ys = (λ h. absurd (ground (arith, h)), λ h. absurd (ground (arith, h.0)))

pub unless-nil_iff : (b : Bool) (issue : TurnAuthorityIssue) → (unless b issue ≡ []) ↔ (b ≡ true)
unless-nil_iff true issue = (λ h. refl, λ h. refl)
unless-nil_iff false issue = (λ h. absurd (ground (arith, h)), λ h. absurd (ground (arith, h)))

-- A check whose verdict does not depend on the index.
pub for_each-nil_iff :
    {A : Type 0} (f : ℕ → A → List TurnAuthorityIssue) (P : A → Type 0)
    → ((i : ℕ) (x : A) → (f i x ≡ []) ↔ P x)
    → (i : ℕ) (xs : List A) → (for_each i f xs ≡ []) ↔ All P xs
for_each-nil_iff f P g i [] = (λ h. tt, λ h. refl)
for_each-nil_iff f P g i (x ∷ xs) =
    let both = append_nil_iff (f i x) (for_each (suc i) f xs) in
    let rest = for_each-nil_iff f P g (suc i) xs in
    (λ h. ((g i x).0 (both.0 h).0, rest.0 (both.0 h).1), λ h. both.1 ((g i x).1 h.0, rest.1 h.1))

-- Two lists of checks, one after the other.
pub append_iff {ℓ κ} :
    {P : Type ℓ} {Q : Type κ} (xs ys : List TurnAuthorityIssue)
    → (xs ≡ []) ↔ P
    → (ys ≡ []) ↔ Q
    → (xs ++ ys ≡ []) ↔ (P × Q)
append_iff xs ys f g =
    let both = append_nil_iff xs ys in
    (λ h. (f.0 (both.0 h).0, g.0 (both.0 h).1), λ h. both.1 (f.1 h.0, g.1 h.1))
