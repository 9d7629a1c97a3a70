-- ===== src/Approvals/RoundTrip.antt =====
-- parseApprovalCommand of packages/policy/src/approval-code.ts on the texts of owners.
use agent_gateway_control.Prelude.{
  ℕ, Bool, true, some, List, [], ◌∷◌, ◌++◌, ◌≡◌, refl, map, all, arith,
}
use agent_gateway_control.Approvals.Codes.{
  plain_code, approval_code, to_upper, is_blank, is_decoration, ends_word, drop_while, is_attempt,
  command_of, read_command, parse_approval_command,
}
use agent_gateway_control.Approvals.Commands.{
  IsGroup, typed_code, word_of, blank-is_decoration, drop_while-append, read_code-lem,
  normalize-typed, group-no_blanks, decision_word-lem, word-undecorated,
}

-- A command as it is typed: blanks, the word, blanks, the code, blanks.
pub record Typed : Type 0 where
  pub lead : List ℕ
  pub word : List ℕ
  pub gap : ℕ
  pub gaps : List ℕ
  pub group1 : List ℕ
  pub dash1 : Bool
  pub group2 : List ℕ
  pub dash2 : Bool
  pub group3 : List ℕ
  pub tail : List ℕ

abbrev pub code_part : Typed → List ℕ
code_part t = typed_code t.group1 t.dash1 t.group2 t.dash2 t.group3 t.tail

abbrev pub text_of : Typed → List ℕ
text_of t = t.lead ++ (t.word ++ (t.gap ∷ (t.gaps ++ code_part t)))

-- The word and the code, with or without its dashes, in any mixture of cases.
pub record IsTypingOf (approving : Bool) (bytes : List ℕ) (t : Typed) : Type 0 where
  pub lead : all is_blank t.lead ≡ true
  pub word : map to_upper t.word ≡ word_of approving
  pub gap : is_blank t.gap ≡ true
  pub gaps : all is_blank t.gaps ≡ true
  pub group1 : IsGroup t.group1
  pub group2 : IsGroup t.group2
  pub group3 : IsGroup t.group3
  pub code : map to_upper (t.group1 ++ (t.group2 ++ t.group3)) ≡ plain_code bytes
  pub tail : all is_blank t.tail ≡ true

all-decoration : (cs : List ℕ) → all is_blank cs ≡ true → all is_decoration cs ≡ true
all-decoration [] h = refl
all-decoration (c ∷ cs) h =
    let d = blank-is_decoration c (ground (arith, h)) in ground (arith, h, d, all-decoration cs)

blank-ends_word : (c : ℕ) (cs : List ℕ) → is_blank c ≡ true → ends_word (c ∷ cs) ≡ true
unfolding is_blank ends_word
blank-ends_word c cs h = ground (arith, h)

drop_blanks : (cs : List ℕ) → all is_blank cs ≡ true → drop_while is_blank cs ≡ []
drop_blanks [] h = refl
drop_blanks (c ∷ cs) h = ground (arith, h, drop_blanks cs)

module _ (approving : Bool) (bytes : List ℕ) (t : Typed) (h : IsTypingOf approving bytes t) where
  after_lead : List ℕ
  after_lead = t.word ++ (t.gap ∷ (t.gaps ++ code_part t))

  typed-is_attempt : is_attempt (text_of t) ≡ true
  unfolding is_attempt after_lead
  typed-is_attempt =
      rw
        (
          drop_while-append is_decoration t.lead after_lead (all-decoration t.lead h.lead),
          (word-undecorated approving t.word (t.gap ∷ (t.gaps ++ code_part t)) h.word).0,
          decision_word-lem approving t.word (t.gap ∷ (t.gaps ++ code_part t)) h.word,
        )
        (blank-ends_word t.gap (t.gaps ++ code_part t) h.gap)

  typed-read_command : read_command (text_of t) ≡ some (command_of approving (approval_code bytes))
  unfolding read_command after_lead approval_code
  typed-read_command =
      rw
        (
          drop_while-append is_blank t.lead after_lead h.lead,
          (word-undecorated approving t.word (t.gap ∷ (t.gaps ++ code_part t)) h.word).1,
          decision_word-lem approving t.word (t.gap ∷ (t.gaps ++ code_part t)) h.word,
          h.gap,
          drop_while-append is_blank t.gaps (code_part t) h.gaps,
          group-no_blanks t.group1 _ h.group1,
          read_code-lem t.group1 t.dash1 t.group2 t.dash2 t.group3 t.tail h.group1 h.group2
              h.group3,
          drop_blanks t.tail h.tail,
          normalize-typed t.group1 t.dash1 t.group2 t.dash2 t.group3 h.group1 h.group2 h.group3,
          h.code,
        )
        refl

  -- Whoever types the word of a decision and the code of a request is understood, in any mixture of
  -- cases, with or without either dash, and with any spaces and tabs around and between: the command is
  -- the decision, with the code as the card shows it.
  pub parse-approval_code :
      parse_approval_command (text_of t) ≡ some (command_of approving (approval_code bytes))
  unfolding parse_approval_command
  parse-approval_code = rw (typed-is_attempt, typed-read_command) refl
