-- ===== src/Approvals/CodeTests.antt =====
-- A code, and messages that are and are not commands.
use agent_gateway_control.Prelude.{ℕ, true, false, none, some, List, [], ◌∷◌, ◌≡◌, refl}
use agent_gateway_control.Approvals.Codes.{
  malformed_command, codes, code_char, approval_code, is_alnum, to_upper, is_blank, is_decoration,
  ends_word, is_attempt, optional_dash, read_code, normalize_approval_code, read_command,
  parse_approval_command, command_of,
}
use agent_gateway_control.Approvals.RoundTrip.{Typed, IsTypingOf, text_of, parse-approval_code}

abbrev bytes : List ℕ
bytes = 0 ∷ 0 ∷ 0 ∷ 0 ∷ 0 ∷ 0 ∷ 255 ∷ 240 ∷ []

shown : approval_code bytes ≡ codes "0000-0000-03ZZ"
unfolding approval_code code_char
shown = refl

-- `  Approve 0000-000003zZ `
abbrev typed : Typed
typed = record {
  lead = codes "  ";
  word = codes "Approve";
  gap = b' ';
  gaps = [];
  group1 = codes "0000";
  dash1 = true;
  group2 = codes "0000";
  dash2 = false;
  group3 = codes "03zZ";
  tail = codes " ";
}

typed-IsTypingOf : IsTypingOf true bytes typed
unfolding is_blank to_upper is_alnum code_char
typed-IsTypingOf = record {
  lead = refl;
  word = refl;
  gap = refl;
  gaps = refl;
  group1 = (refl, refl);
  group2 = (refl, refl);
  group3 = (refl, refl);
  code = refl;
  tail = refl;
}

parse-approval_code_example :
    parse_approval_command (text_of typed) ≡ some (command_of true (approval_code bytes))
parse-approval_code_example = parse-approval_code true bytes typed typed-IsTypingOf

quoted : parse_approval_command (codes "> approve 0000-0000-03ZZ") ≡ some malformed_command
unfolding parse_approval_command is_attempt is_decoration ends_word read_command read_code
    optional_dash normalize_approval_code is_blank to_upper is_alnum
quoted = refl

remark : parse_approval_command (codes "approved already?") ≡ none
unfolding parse_approval_command is_attempt is_decoration ends_word read_command read_code
    optional_dash normalize_approval_code is_blank to_upper is_alnum
remark = refl
