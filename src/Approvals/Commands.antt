-- ===== src/Approvals/Commands.antt =====
-- The grammar of commands (packages/policy/src/approval-code.ts) on typed codes.
use mathlib.Core.Path.{subst}
use agent_gateway_control.Prelude.{
  ℕ, zero, suc, ◌-◌, ◌*◌, ◌/◌, ◌%◌, ◌^◌, ◌<◌, ◌==◌, Bool, true, false, none, some, List, [], ◌∷◌,
  ◌++◌, ◌≡◌, refl, map, filter, get_elem?, all, length, arith,
}
use agent_gateway_control.Approvals.Codes.{
  codes, crockford, dash, grouped, or_nul, code_char, code_chars, is_upper, is_alnum, to_upper,
  is_blank, is_decoration, drop_while, approve_word, deny_word, after_word, decision_word,
  take_alnum, optional_dash, read_code, not_dash, normalize_approval_code,
}

-- Characters of a code and words keep their class when they are typed in another case.
is_alnum-to_upper : (c : ℕ) → is_alnum (to_upper c) ≡ is_alnum c
unfolding is_alnum to_upper
is_alnum-to_upper c = ground arith

alnum-not_dash : (c : ℕ) → is_alnum c ≡ true → not_dash c ≡ true
unfolding is_alnum
alnum-not_dash c h = ground (arith, h)

alnum-not_blank : (c : ℕ) → is_alnum c ≡ true → is_blank c ≡ false
unfolding is_alnum is_blank
alnum-not_blank c h = ground (arith, h)

pub blank-is_decoration : (c : ℕ) → is_blank c ≡ true → is_decoration c ≡ true
unfolding is_blank is_decoration
blank-is_decoration c h = ground (arith, h)

capital-not_decoration :
    (c k : ℕ)
    → to_upper c ≡ k
    → is_upper k ≡ true
    → (is_decoration c ≡ false) × (is_blank c ≡ false)
unfolding to_upper is_decoration is_blank
capital-not_decoration c k e u = ground (arith, e, u)

pub drop_while-append :
    (p : ℕ → Bool) (xs rest : List ℕ)
    → all p xs ≡ true
    → drop_while p (xs ++ rest) ≡ drop_while p rest
drop_while-append p [] rest h = refl
drop_while-append p (x ∷ xs) rest h = ground (arith, h, drop_while-append p xs rest)

after_word-append :
    (ks typed rest : List ℕ) → map to_upper typed ≡ ks → after_word ks (typed ++ rest) ≡ some rest
after_word-append [] [] rest e = refl
after_word-append [] (c ∷ cs) rest e = absurd (ground (arith, e))
after_word-append (k ∷ ks) [] rest e = absurd (ground (arith, e))
after_word-append (k ∷ ks) (c ∷ cs) rest e = ground (arith, e, after_word-append ks cs rest)

after_word-other :
    (c k : ℕ) (cs ks : List ℕ) → (to_upper c == k) ≡ false → after_word (k ∷ ks) (c ∷ cs) ≡ none
after_word-other c k cs ks n = rw n refl

take_alnum-append :
    (xs rest : List ℕ)
    → all is_alnum xs ≡ true
    → take_alnum (length xs) (xs ++ rest) ≡ some (xs, rest)
take_alnum-append [] rest h = refl
take_alnum-append (x ∷ xs) rest h = ground (arith, h, take_alnum-append xs rest)

pub all-map_upper : (xs : List ℕ) → all is_alnum (map to_upper xs) ≡ all is_alnum xs
all-map_upper [] = refl
all-map_upper (x ∷ xs) = ground (arith, is_alnum-to_upper x, all-map_upper xs)

all-get_elem? :
    (p : ℕ → Bool) (xs : List ℕ) (n : ℕ)
    → all p xs ≡ true
    → n < length xs
    → p (or_nul (get_elem? xs n)) ≡ true
all-get_elem? p [] n h l = absurd (omega (arith, l))
all-get_elem? p (x ∷ xs) zero h l = ground (arith, h)
all-get_elem? p (x ∷ xs) (suc n) h l = all-get_elem? p xs n (ground (arith, h)) (omega (arith, l))

crockford_alnum : all is_alnum crockford ≡ true
unfolding is_alnum
crockford_alnum = refl

code_char-alnum : (bits shift : ℕ) → is_alnum (code_char bits shift) ≡ true
unfolding code_char
code_char-alnum bits shift =
    all-get_elem? is_alnum crockford (bits / 2 ^ shift % 32) crockford_alnum (omega arith)

pub code_chars-alnum : (n i bits : ℕ) → all is_alnum (code_chars n i bits) ≡ true
code_chars-alnum zero i bits = refl
code_chars-alnum (suc n) i bits =
    ground (arith, code_char-alnum bits (59 - i * 5), code_chars-alnum n (suc i) bits)

pub all-append :
    (p : ℕ → Bool) (xs ys : List ℕ)
    → all p (xs ++ ys) ≡ true
    → (all p xs ≡ true) × (all p ys ≡ true)
all-append p [] ys h = (refl, h)
all-append p (x ∷ xs) ys h = ground (arith, h, all-append p xs ys)

-- Four characters of a code.
abbrev pub IsGroup : List ℕ → Type 0
IsGroup g = (length g ≡ 4) × (all is_alnum g ≡ true)

abbrev pub dash_if : Bool → List ℕ
dash_if true = dash ∷ []
dash_if false = []

optional_dash-lem :
    (d : Bool) (g rest : List ℕ)
    → IsGroup g
    → optional_dash (dash_if d ++ (g ++ rest)) ≡ (dash_if d, g ++ rest)
unfolding optional_dash
optional_dash-lem d [] rest h = absurd (omega (arith, h.0))
optional_dash-lem true (c ∷ g) rest h = refl
optional_dash-lem false (c ∷ g) rest h =
    let n = alnum-not_dash c (ground (arith, h.1)) in ground (arith, n)

group-read : (g rest : List ℕ) → IsGroup g → take_alnum 4 (g ++ rest) ≡ some (g, rest)
group-read g rest h =
    subst (λ n. take_alnum n (g ++ rest) ≡ some (g, rest)) h.0 (take_alnum-append g rest h.1)

-- The text of a code, and what follows it.
abbrev pub typed_code : List ℕ → Bool → List ℕ → Bool → List ℕ → List ℕ → List ℕ
typed_code g1 d1 g2 d2 g3 rest = g1 ++ (dash_if d1 ++ (g2 ++ (dash_if d2 ++ (g3 ++ rest))))

pub read_code-lem :
    (g1 : List ℕ) (d1 : Bool) (g2 : List ℕ) (d2 : Bool) (g3 rest : List ℕ)
    → IsGroup g1
    → IsGroup g2
    → IsGroup g3
    → read_code (typed_code g1 d1 g2 d2 g3 rest)
      ≡ some (g1 ++ (dash_if d1 ++ (g2 ++ (dash_if d2 ++ g3))), rest)
unfolding read_code
read_code-lem g1 d1 g2 d2 g3 rest h1 h2 h3 =
    rw
      (
        group-read g1 (dash_if d1 ++ (g2 ++ (dash_if d2 ++ (g3 ++ rest)))) h1,
        optional_dash-lem d1 g2 (dash_if d2 ++ (g3 ++ rest)) h2,
        group-read g2 (dash_if d2 ++ (g3 ++ rest)) h2,
        optional_dash-lem d2 g3 rest h3,
        group-read g3 rest h3,
      )
      refl

filter-alnum :
    (g rest : List ℕ)
    → all is_alnum g ≡ true
    → filter not_dash (g ++ rest) ≡ g ++ filter not_dash rest
filter-alnum [] rest h = refl
filter-alnum (c ∷ g) rest h =
    let n = alnum-not_dash c (ground (arith, h)) in
    let hs : all is_alnum g ≡ true = ground (arith, h) in rw (n, filter-alnum g rest hs) refl

filter-dash_if :
    (d : Bool) (rest : List ℕ) → filter not_dash (dash_if d ++ rest) ≡ filter not_dash rest
filter-dash_if true rest = refl
filter-dash_if false rest = refl

filter-group : (g : List ℕ) → all is_alnum g ≡ true → filter not_dash g ≡ g
filter-group [] h = refl
filter-group (c ∷ g) h =
    let n = alnum-not_dash c (ground (arith, h)) in
    let hs : all is_alnum g ≡ true = ground (arith, h) in rw (n, filter-group g hs) refl

pub normalize-typed :
    (g1 : List ℕ) (d1 : Bool) (g2 : List ℕ) (d2 : Bool) (g3 : List ℕ)
    → IsGroup g1
    → IsGroup g2
    → IsGroup g3
    → normalize_approval_code (g1 ++ (dash_if d1 ++ (g2 ++ (dash_if d2 ++ g3))))
      ≡ grouped (map to_upper (g1 ++ (g2 ++ g3)))
unfolding normalize_approval_code
normalize-typed g1 d1 g2 d2 g3 h1 h2 h3 =
    rw
      (
        filter-alnum g1 (dash_if d1 ++ (g2 ++ (dash_if d2 ++ g3))) h1.1,
        filter-dash_if d1 (g2 ++ (dash_if d2 ++ g3)),
        filter-alnum g2 (dash_if d2 ++ g3) h2.1,
        filter-dash_if d2 g3,
        filter-group g3 h3.1,
      )
      refl

pub group-no_blanks : (g rest : List ℕ) → IsGroup g → drop_while is_blank (g ++ rest) ≡ g ++ rest
group-no_blanks [] rest h = absurd (omega (arith, h.0))
group-no_blanks (c ∷ g) rest h = let n = alnum-not_blank c (ground (arith, h.1)) in rw n refl

-- The word of a decision, in capitals.
abbrev pub word_of : Bool → List ℕ
word_of true = approve_word
word_of false = deny_word

-- The first letter of a word, in whatever case.
first_letter : (c k : ℕ) (cs ks : List ℕ) → map to_upper (c ∷ cs) ≡ k ∷ ks → to_upper c ≡ k
first_letter c k cs ks e = ground (arith, e)

pub decision_word-lem :
    (approving : Bool) (word rest : List ℕ)
    → map to_upper word ≡ word_of approving
    → decision_word (word ++ rest) ≡ some (approving, rest)
decision_word-lem true word rest e = rw (after_word-append approve_word word rest e) refl
decision_word-lem false [] rest e = absurd (ground (arith, e))
decision_word-lem false (c ∷ word) rest e =
    let denied = after_word-append deny_word (c ∷ word) rest e in
    let d = first_letter c b'D' word (codes "ENY") e in
    rw (after_word-other c b'A' (word ++ rest) (codes "PPROVE") (ground (arith, d)), denied) refl

plain_start :
    (c : ℕ) (cs : List ℕ)
    → (is_decoration c ≡ false) × (is_blank c ≡ false)
    → (drop_while is_decoration (c ∷ cs) ≡ c ∷ cs) × (drop_while is_blank (c ∷ cs) ≡ c ∷ cs)
plain_start c cs h = (rw h.0 refl, rw h.1 refl)

pub word-undecorated :
    (approving : Bool) (word rest : List ℕ)
    → map to_upper word ≡ word_of approving
    → (drop_while is_decoration (word ++ rest) ≡ word ++ rest)
      × (drop_while is_blank (word ++ rest) ≡ word ++ rest)
word-undecorated true [] rest e = absurd (ground (arith, e))
word-undecorated false [] rest e = absurd (ground (arith, e))
word-undecorated true (c ∷ word) rest e =
    plain_start c (word ++ rest)
      (capital-not_decoration c b'A' (first_letter c b'A' word (codes "PPROVE") e) refl)
word-undecorated false (c ∷ word) rest e =
    plain_start c (word ++ rest)
      (capital-not_decoration c b'D' (first_letter c b'D' word (codes "ENY") e) refl)
