-- ===== src/Regexp/Search.antt =====
-- The search for a match from the left finds one if there is one, and matches of sequences of classes.
use spyre_health_checker.Base.{
  ℕ, ◌≡◌, refl, Bool, true, List, [], ◌∷◌, ◌++◌, Option, none, some, Text, arith,
}
use spyre_health_checker.Regexp.{Regexp, Cursor, seq, match_here, find_from, find_submatch}
use spyre_health_checker.Regexp.Sound.{Derives}
use spyre_health_checker.Regexp.Shape.{fits}
use spyre_health_checker.Regexp.Complete.{
  repeats_taking, is_found, first_found, second_found, run_complete,
}

-- The character before the end of a part.
abbrev pub last_of : Option ℕ → Text → Option ℕ
last_of before [] = before
last_of before (x ∷ s) = last_of (some x) s

find_from_complete :
    (r : Regexp) (before : Option ℕ) (pre s : Text) (d : Cursor)
    → repeats_taking r ≡ true
    → Derives r (record { before = last_of before pre; rest = s; groups = [] }) d
    → is_found (find_from r before (pre ++ s)) ≡ true
unfolding find_from match_here
find_from_complete r before [] [] d t m = run_complete r t _ d some m refl
find_from_complete r before [] (y ∷ s) d t m =
    first_found (match_here r before (y ∷ s)) (find_from r (some y) s)
      (run_complete r t _ d some m refl)
find_from_complete r before (x ∷ pre) s d t m =
    second_found (match_here r before (x ∷ (pre ++ s))) (find_from r (some x) (pre ++ s))
      (find_from_complete r (some x) pre s d t m)

-- A text that has a match anywhere is one in which `find_submatch` finds one.
pub find_submatch_complete :
    (r : Regexp) (pre s : Text) (d : Cursor)
    → repeats_taking r ≡ true
    → Derives r (record { before = last_of none pre; rest = s; groups = [] }) d
    → is_found (find_submatch r (pre ++ s)) ≡ true
unfolding find_submatch
find_submatch_complete r pre s d t m = find_from_complete r none pre s d t m

-- A text that fits a sequence of classes is a match of it.
pub fits-Derives :
    (ps : List (ℕ → Bool)) (s t : Text) (c : Cursor)
    → fits ps s ≡ true
    → c.rest ≡ s ++ t
    → (d : Cursor) × Derives (seq ps) c d × (d.rest ≡ t)
fits-Derives [] [] t c f e = (c, refl, e)
fits-Derives [] (x ∷ s) t c f e = cc
fits-Derives (p ∷ ps) [] t c f e = cc
fits-Derives (p ∷ ps) (x ∷ s) t c f e =
    let next : Cursor = record c { before = some x; rest = s ++ t } in
    let (d, m, q) = fits-Derives ps s t next (ground arith) refl in
    (d, (next, (x, s ++ t, e, ground arith, refl), m), q)

-- A match of a sequence is one of its two parts in a row.
pub seq-append :
    (ps qs : List (ℕ → Bool)) (c d : Cursor)
    → Derives (seq (ps ++ qs)) c d
    → (b : Cursor) × Derives (seq ps) c b × Derives (seq qs) b d
seq-append [] qs c d m = (c, refl, m)
seq-append (p ∷ ps) qs c d (e, head, m) =
    let (b, first, second) = seq-append ps qs e d m in (b, (e, head, first), second)
