-- ===== src/Regexp.antt =====
-- The part of Go's package regexp that the parsers of internal/reporter use. An expression is data,
-- and the matcher tries alternatives in order, as Go's leftmost-first matches are defined. Each
-- expression of the program repeats only parts that take a character, so a round of a repetition
-- that takes none is not tried.
pub mod Fuel
pub mod Sound
pub mod Shape
pub mod Language
pub mod Pieces
pub mod Alphabet
pub mod Complete
pub mod Search
use mathlib.Core.List.{reverse}
use spyre_health_checker.Base.{
  ℕ, zero, suc, ◌+◌, ◌-◌, map, Bool, true, false, not, ◌&&◌, ◌||◌, List, [], ◌∷◌, Option, none,
  some, Text, if◌then◌else◌, ltb, leb, ◌==◌, length,
}

pub data Regexp : Type 0 where
  empty : Regexp
  one : (ℕ → Bool) → Regexp
  cat alt : Regexp → Regexp → Regexp
  star lazy_star : Regexp → Regexp
  group : ℕ → Regexp → Regexp
  begin_text end_text word_boundary : Regexp

abbrev pub opt : Regexp → Regexp
opt r = alt r empty

abbrev pub plus : Regexp → Regexp
plus r = cat r (star r)

-- One character of each class, in order.
abbrev pub seq : List (ℕ → Bool) → Regexp
seq [] = empty
seq (p ∷ ps) = cat (one p) (seq ps)

-- A literal text, and one whose case is ignored. U+017F and U+212A fold to ASCII.
abbrev pub exact : ℕ → ℕ → Bool
exact c x = x == c

unfoldable pub simple_fold : ℕ → ℕ
simple_fold c =
    if leb b'A' c && leb c b'Z'
    then c + 32
    else if c == 0x17f
    then b's'
    else if c == 0x212a
    then b'k'
    else c

unfoldable pub same_fold : ℕ → ℕ → Bool
unfolding simple_fold
same_fold c x = simple_fold x == simple_fold c

abbrev pub literal : Text → Regexp
literal s = seq (map exact s)

abbrev pub folded : Text → Regexp
folded s = seq (map same_fold s)

-- `[0-9a-f]` with the flag `i`, `[0-9a-f]` without it, `[0-7]`, `\s`, `.` and `\d`
unfoldable pub hex_i : ℕ → Bool
hex_i c = (leb b'0' c && leb c b'9') || (leb b'a' c && leb c b'f') || (leb b'A' c && leb c b'F')

unfoldable pub hex : ℕ → Bool
hex c = (leb b'0' c && leb c b'9') || (leb b'a' c && leb c b'f')

unfoldable pub octal : ℕ → Bool
octal c = leb b'0' c && leb c b'7'

unfoldable pub blank : ℕ → Bool
blank c = c == 9 || c == 10 || c == 12 || c == 13 || c == 32

unfoldable pub not_blank : ℕ → Bool
unfolding blank
not_blank c = not (blank c)

unfoldable pub dot : ℕ → Bool
dot c = not (c == 10)

unfoldable pub digit : ℕ → Bool
digit c = leb b'0' c && leb c b'9'

-- A position in a text: the character before it, what follows, and the groups taken so far, the
-- last one first.
pub record Cursor : Type 0 where
  pub before : Option ℕ
  pub rest : Text
  pub groups : List (ℕ × Text)

-- The next `n` characters.
abbrev pub take : ℕ → Text → Text
take zero s = []
take (suc n) [] = []
take (suc n) (x ∷ s) = x ∷ take n s

-- What lies between a text and a later rest of it.
abbrev pub taken : Text → Text → Text
taken s r = take (length s - length r) s

-- `\w`
unfoldable pub is_word : ℕ → Bool
is_word c =
    (leb b'0' c && leb c b'9')
    || (leb b'A' c && leb c b'Z')
    || (leb b'a' c && leb c b'z')
    || c == b'_'

unfoldable pub word_before : Option ℕ → Bool
unfolding is_word
word_before none = false
word_before (some c) = is_word c

unfoldable pub word_after : Text → Bool
unfolding is_word
word_after [] = false
word_after (c ∷ s) = is_word c

abbrev pub differ : Bool → Bool → Bool
differ true b = not b
differ false b = b

-- What is left to match, tried at the cursor that a part of the expression leaves.
abbrev pub Next : Type 0
Next = Cursor → Option Cursor

unfoldable pub run_one : (ℕ → Bool) → Cursor → Text → Next → Option Cursor
run_one p c [] k = none
run_one p c (x ∷ xs) k = elim (p x) [
  | true ↦ k (record c { before = some x; rest = xs })
  | false ↦ none
]

-- A round of a repetition has to take a character.
abbrev pub moved : Cursor → Next → Next
moved c k d = elim (ltb (length d.rest) (length c.rest)) [ true ↦ k d | false ↦ none ]

-- A greedy repetition tries one more round first, a lazy one last.
unfoldable pub run_star : ℕ → (Cursor → Next → Option Cursor) → Cursor → Next → Option Cursor
run_star zero round c k = k c
run_star (suc f) round c k = elim (round c (moved c (λ d. run_star f round d k))) [
  | some r ↦ some r
  | none ↦ k c
]

unfoldable pub run_lazy : ℕ → (Cursor → Next → Option Cursor) → Cursor → Next → Option Cursor
run_lazy zero round c k = k c
run_lazy (suc f) round c k = elim (k c) [
  | some r ↦ some r
  | none ↦ round c (moved c (λ d. run_lazy f round d k))
]

-- A text has no more rounds in it than characters.
unfoldable pub run : Regexp → Cursor → Next → Option Cursor
unfolding run_one run_star run_lazy word_before word_after
run empty c k = k c
run (one p) c k = run_one p c c.rest k
run (cat r s) c k = run r c (λ d. run s d k)
run (alt r s) c k = elim (run r c k) [ some d ↦ some d | none ↦ run s c k ]
run (star r) c k = run_star (suc (length c.rest)) (run r) c k
run (lazy_star r) c k = run_lazy (suc (length c.rest)) (run r) c k
run (group n r) c k = run r c (λ d. k (record d { groups = (n, taken c.rest d.rest) ∷ d.groups }))
run begin_text c k = elim c.before [ none ↦ k c | some x ↦ none ]
run end_text c k = elim c.rest [ [] ↦ k c | x ∷ xs ↦ none ]
run word_boundary c k = elim (differ (word_before c.before) (word_after c.rest)) [
  | true ↦ k c
  | false ↦ none
]

-- A match that starts here.
unfoldable pub match_here : Regexp → Option ℕ → Text → Option Cursor
unfolding run
match_here r before s = run r (record { before = before; rest = s; groups = [] }) some

-- `FindStringSubmatch`: the first match, from the left.
unfoldable pub find_from : Regexp → Option ℕ → Text → Option Cursor
unfolding match_here
find_from r before [] = match_here r before []
find_from r before (x ∷ s) = elim (match_here r before (x ∷ s)) [
  | some c ↦ some c
  | none ↦ find_from r (some x) s
]

unfoldable pub find_submatch : Regexp → Text → Option Cursor
unfolding find_from
find_submatch r s = find_from r none s

-- The text of a group, empty if it took no part in the match.
unfoldable pub group_of : ℕ → List (ℕ × Text) → Text
group_of n [] = []
group_of n ((m, t) ∷ groups) = if m == n then t else group_of n groups

-- `FindAllStringSubmatch(s, -1)`. The number counts the characters that the last match still covers.
unfoldable pub find_all : Regexp → Option ℕ → ℕ → Text → List Cursor
unfolding match_here
find_all r before skip [] = []
find_all r before (suc skip) (x ∷ s) = find_all r (some x) skip s
find_all r before zero (x ∷ s) = elim (match_here r before (x ∷ s)) [
  | some c ↦ c ∷ find_all r (some x) (length s - length c.rest) s
  | none ↦ find_all r (some x) zero s
]

-- `Split(s, -1)`. The texts hold the current part, backwards, and what follows.
unfoldable pub split_go : Regexp → Option ℕ → ℕ → Text → Text → List Text
unfolding match_here
split_go r before skip part [] = reverse part ∷ []
split_go r before (suc skip) part (x ∷ s) = split_go r (some x) skip part s
split_go r before zero part (x ∷ s) = elim (match_here r before (x ∷ s)) [
  | some c ↦ reverse part ∷ split_go r (some x) (length s - length c.rest) [] s
  | none ↦ split_go r (some x) zero (x ∷ part) s
]

unfoldable pub regexp_split : Regexp → Text → List Text
unfolding split_go
regexp_split r s = split_go r none zero [] s
