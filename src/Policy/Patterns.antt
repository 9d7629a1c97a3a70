-- ===== src/Policy/Patterns.antt =====
-- toolPatternCovers (packages/contracts/src/common.ts): a tool name, or a prefix with a wildcard.
use Prim.Native.String.{◌++◌ as str_append, len, slice}
use text.Mathlib.TextBridge.{IsPrefix}
use text.Mathlib.TextLemmas.{append_assoc}
use text.Mathlib.TextEquality.{starts_with_iff}
use text.Mathlib.TextPositions.{len-append, slice-append_left, slice-append_right}
use agent_gateway_control.Prelude.{
  ℕ, ◌+◌, ◌-◌, String, str_eq, starts_with, eq_iff, ◌≡◌, ◌↔◌, ◌⊎◌, sym, ap, ◌∙◌, Bool, true, false,
  ◌||◌, List, any, arith, if◌then◌else◌,
}

-- String.prototype.endsWith
abbrev pub ends_with : String → String → Bool
ends_with s t = str_eq (slice s (len s - len t) (len s)) t

unfoldable pub tool_pattern_covers : String → String → Bool
tool_pattern_covers pattern other =
    if ends_with pattern ".*"
    then str_eq other pattern || starts_with other (slice pattern 0 (len pattern - 1))
    else str_eq pattern other

-- `patterns.some((pattern) => toolPatternCovers(pattern, actionType))`
abbrev pub covers : List String → String → Bool
covers patterns action_type = any (λ pattern. tool_pattern_covers pattern action_type) patterns

two_back : (a b : ℕ) → a + b - b ≡ a
two_back a b = omega arith

wildcard-ends_with : (q : String) → ends_with (str_append q ".*") ".*" ≡ true
wildcard-ends_with q =
    let w = str_append q ".*" in
    (eq_iff (slice w (len w - 2) (len w)) ".*").1 (
      ap (λ n. slice w (n - 2) n) (len-append q ".*")
      ∙ ap (λ n. slice w n (len q + 2)) (two_back (len q) 2)
      ∙ slice-append_right q ".*")

prefix_length : (q : String) → len q + 2 - 1 ≡ len (str_append q ".")
prefix_length q = omega (arith, len-append q ".")

wildcard-prefix :
    (q : String) → slice (str_append q ".*") 0 (len (str_append q ".*") - 1) ≡ str_append q "."
wildcard-prefix q =
    ap (λ n. slice (str_append q ".*") 0 (n - 1)) (len-append q ".*")
    ∙ ap (λ n. slice (str_append q ".*") 0 n) (prefix_length q)
    ∙ ap (λ s. slice s 0 (len (str_append q "."))) (sym (append_assoc q "." "*"))
    ∙ slice-append_left (str_append q ".") "*"

or_iff : (a b : Bool) → ((a || b) ≡ true) ↔ ((a ≡ true) ⊎ (b ≡ true))
or_iff a b = ground arith

-- What a pattern covers: a wildcard covers itself and every name under its prefix, and any other
-- pattern, one that does not end in a wildcard, covers itself alone.
tool_pattern_covers_iff :
    (pattern q other : String)
    → ((tool_pattern_covers (str_append q ".*") other ≡ true)
        ↔ ((other ≡ str_append q ".*") ⊎ IsPrefix (str_append q ".") other))
      × (ends_with pattern ".*" ≡ false
          → (tool_pattern_covers pattern other ≡ true) ↔ (pattern ≡ other))
unfolding tool_pattern_covers
tool_pattern_covers_iff pattern q other =
    let w = str_append q ".*" in
    (
      rw (wildcard-ends_with q, wildcard-prefix q) ground
          (
            arith,
            or_iff (str_eq other w) (starts_with other (str_append q ".")),
            eq_iff other w,
            starts_with_iff other (str_append q "."),
          ),
      λ plain. rw plain (eq_iff pattern other),
    )
