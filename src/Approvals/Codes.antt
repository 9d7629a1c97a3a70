-- ===== src/Approvals/Codes.antt =====
-- The code of an approval request and the commands in its thread: packages/policy/src/approval-code.ts.
-- A text is the list of its character codes; `bytes` are the first eight of the digest of a request.
use Prim.Native.Char.{code}
use agent_gateway_control.Prelude.{
  ℕ, zero, suc, ◌+◌, ◌-◌, ◌*◌, ◌/◌, ◌%◌, ◌^◌, ◌==◌, String, Bool, true, false, ◌&&◌, ◌||◌, not,
  Option, none, some, List, [], ◌∷◌, ◌++◌, map, filter, get_elem?, take, leb, if◌then◌else◌,
}

pub data Command (T : Type 0) : Type 0 where
  approve : T → Command T
  deny : T → Command T
  -- Starts like a command but is not exactly one.
  malformed_command : Command T

abbrev pub codes : String → List ℕ
codes String.[] = []
codes (String.◌∷◌ c s) = code c ∷ codes s

abbrev pub crockford : List ℕ
crockford = codes "0123456789ABCDEFGHJKMNPQRSTVWXYZ"

abbrev pub dash : ℕ
dash = b'-'

abbrev pub drop : ℕ → List ℕ → List ℕ
drop zero xs = xs
drop (suc n) [] = []
drop (suc n) (x ∷ xs) = drop n xs

-- Three groups, of four characters but for the last.
abbrev pub grouped : List ℕ → List ℕ
grouped plain = take 4 plain ++ (dash ∷ take 4 (drop 4 plain) ++ (dash ∷ drop 8 plain))

abbrev pub bits_of : ℕ → List ℕ → ℕ
bits_of bits [] = bits
bits_of bits (byte ∷ bytes) = bits_of (bits * 256 + byte) bytes

abbrev pub or_nul : Option ℕ → ℕ
or_nul none = 0
or_nul (some c) = c

-- The five bits that end at the given one, in the alphabet.
unfoldable pub code_char : ℕ → ℕ → ℕ
code_char bits shift = or_nul (get_elem? crockford (bits / 2 ^ shift % 32))

-- The characters from the i-th on, as many as the first argument says.
abbrev pub code_chars : ℕ → ℕ → ℕ → List ℕ
code_chars zero i bits = []
code_chars (suc n) i bits = code_char bits (59 - i * 5) ∷ code_chars n (suc i) bits

abbrev pub plain_code : List ℕ → List ℕ
plain_code bytes = code_chars 12 0 (bits_of 0 bytes)

unfoldable pub approval_code : List ℕ → List ℕ
approval_code bytes = grouped (plain_code bytes)

abbrev pub is_lower : ℕ → Bool
is_lower c = leb b'a' c && leb c b'z'

abbrev pub is_upper : ℕ → Bool
is_upper c = leb b'A' c && leb c b'Z'

abbrev pub is_digit : ℕ → Bool
is_digit c = leb b'0' c && leb c b'9'

-- [0-9A-Za-z]
unfoldable pub is_alnum : ℕ → Bool
is_alnum c = is_digit c || is_upper c || is_lower c

-- On the letters of ASCII.
unfoldable pub to_upper : ℕ → ℕ
to_upper c = if is_lower c then c - 32 else c

-- [ \\t]
unfoldable pub is_blank : ℕ → Bool
is_blank c = c == 32 || c == 9

-- \\s
abbrev is_space : ℕ → Bool
is_space c =
    leb 9 c && leb c 13
    || c == 32
    || c == 160
    || c == 5760
    || leb 8192 c && leb c 8202
    || c == 8232
    || c == 8233
    || c == 8239
    || c == 8287
    || c == 12288
    || c == 65279

-- [\\s>`*_~]
unfoldable pub is_decoration : ℕ → Bool
is_decoration c = is_space c || c == b'>' || c == b'`' || c == b'*' || c == b'_' || c == b'~'

-- Where a word ends: \\b after a letter.
unfoldable pub ends_word : List ℕ → Bool
ends_word [] = true
ends_word (c ∷ cs) = not (is_digit c || is_upper c || is_lower c || c == b'_')

abbrev pub drop_while : (ℕ → Bool) → List ℕ → List ℕ
drop_while p [] = []
drop_while p (c ∷ cs) = let rest = drop_while p cs in if p c then rest else c ∷ cs

abbrev pub approve_word : List ℕ
approve_word = codes "APPROVE"

abbrev pub deny_word : List ℕ
deny_word = codes "DENY"

-- What follows the word, which is given in capitals, in any case.
abbrev pub after_word : List ℕ → List ℕ → Option (List ℕ)
after_word [] text = some text
after_word (k ∷ ks) [] = none
after_word (k ∷ ks) (c ∷ cs) = let rest = after_word ks cs in if to_upper c == k then rest else none

abbrev pub and_then {ℓ κ} : {A : Type ℓ} {B : Type κ} → Option A → (A → Option B) → Option B
and_then none f = none
and_then (some a) f = f a

abbrev pub denial : Option (List ℕ) → Option (Bool × List ℕ)
denial none = none
denial (some rest) = some (false, rest)

abbrev pub or_denial : Option (List ℕ) → List ℕ → Option (Bool × List ℕ)
or_denial none text = denial (after_word deny_word text)
or_denial (some rest) text = some (true, rest)

-- (approve|deny), and whether it approves.
abbrev pub decision_word : List ℕ → Option (Bool × List ℕ)
decision_word text = or_denial (after_word approve_word text) text

abbrev pub word_ends : Option (Bool × List ℕ) → Bool
word_ends none = false
word_ends (some (approving, rest)) = ends_word rest

-- ATTEMPT
unfoldable pub is_attempt : List ℕ → Bool
is_attempt text = word_ends (decision_word (drop_while is_decoration text))

-- Alphanumeric characters, as many as the first argument says, and the rest.
abbrev pub take_alnum : ℕ → List ℕ → Option (List ℕ × List ℕ)
take_alnum zero text = some ([], text)
take_alnum (suc n) [] = none
take_alnum (suc n) (c ∷ cs) =
    let rest = take_alnum n cs in
    if is_alnum c then and_then rest (λ r. some (c ∷ r.0, r.1)) else none

-- -?
unfoldable pub optional_dash : List ℕ → List ℕ × List ℕ
optional_dash [] = ([], [])
optional_dash (c ∷ cs) = if c == dash then (dash ∷ [], cs) else ([], c ∷ cs)

unfoldable pub read_code : List ℕ → Option (List ℕ × List ℕ)
read_code text = and_then (take_alnum 4 text) λ a.
    and_then (take_alnum 4 (optional_dash a.1).1) λ b.
      and_then (take_alnum 4 (optional_dash b.1).1)
        λ d. some (a.0 ++ ((optional_dash a.1).0 ++ (b.0 ++ ((optional_dash b.1).0 ++ d.0))), d.1)

-- [ \\t]+
abbrev pub some_blanks : List ℕ → Option (List ℕ)
some_blanks [] = none
some_blanks (c ∷ cs) = if is_blank c then some (drop_while is_blank cs) else none

abbrev pub not_dash : ℕ → Bool
not_dash c = not (c == dash)

unfoldable pub normalize_approval_code : List ℕ → List ℕ
normalize_approval_code text = grouped (map to_upper (filter not_dash text))

abbrev pub command_of : Bool → List ℕ → Command (List ℕ)
command_of approving text = if approving then approve text else deny text

abbrev pub if_at_end : List ℕ → Command (List ℕ) → Option (Command (List ℕ))
if_at_end [] command = some command
if_at_end (c ∷ cs) command = none

-- COMMAND
unfoldable pub read_command : List ℕ → Option (Command (List ℕ))
read_command text = and_then (decision_word (drop_while is_blank text)) λ d.
    and_then (some_blanks d.1) λ rest.
      and_then (read_code rest)
        λ c. if_at_end (drop_while is_blank c.1) (command_of d.0 (normalize_approval_code c.0))

abbrev pub or_malformed : Option (Command (List ℕ)) → Command (List ℕ)
or_malformed none = malformed_command
or_malformed (some command) = command

-- None when the post is not an attempt at a command at all.
unfoldable pub parse_approval_command : List ℕ → Option (Command (List ℕ))
parse_approval_command text =
    if not (is_attempt text) then none else some (or_malformed (read_command text))
