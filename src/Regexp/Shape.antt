-- ===== src/Regexp/Shape.antt =====
-- What a match says of the text between its cursors and of the groups.
use mathlib.Core.List.{append_assoc}
use spyre_health_checker.Base.{
  ℕ, suc, ◌≡◌, refl, sym, ap, subst, ◌∙◌, ◌⊎◌, inl, inr, Bool, true, false, ◌&&◌, not, ◌==◌, List,
  [], ◌∷◌, ◌++◌, Option, none, some, Option-cases, Text, length, length-append, arith,
}
use spyre_health_checker.Regexp.{
  Regexp, empty, one, cat, alt, star, lazy_star, group, begin_text, end_text, word_boundary, opt,
  Cursor, seq, take, taken, group_of, match_here, find_from, find_submatch,
}
use spyre_health_checker.Regexp.Sound.{Derives, Rounds, stop, more, run_sound}

-- The text has one character of each class, in order, and no more.
abbrev pub fits : List (ℕ → Bool) → Text → Bool
fits [] [] = true
fits (p ∷ ps) (x ∷ s) = p x && fits ps s
fits _ _ = false

pub fits-append :
    (ps qs : List (ℕ → Bool)) (s t : Text)
    → fits ps s ≡ true
    → fits qs t ≡ true
    → fits (ps ++ qs) (s ++ t) ≡ true
fits-append [] qs [] t h k = k
fits-append [] qs (x ∷ s) t h k = cc
fits-append (p ∷ ps) qs [] t h k = cc
fits-append (p ∷ ps) qs (x ∷ s) t h k = ground (arith, fits-append ps qs s t)

pub fits-length : (ps : List (ℕ → Bool)) (s : Text) → fits ps s ≡ true → length s ≡ length ps
fits-length [] [] h = refl
fits-length [] (x ∷ s) h = cc
fits-length (p ∷ ps) [] h = cc
fits-length (p ∷ ps) (x ∷ s) h = ap suc (fits-length ps s (ground arith))

take-append : (s r : Text) → take (length s) (s ++ r) ≡ s
take-append [] r = refl
take-append (x ∷ s) r = ap (◌∷◌ x) (take-append s r)

pub taken-append : (s r : Text) → taken (s ++ r) r ≡ s
taken-append s r = ap (λ n. take n (s ++ r)) (omega (arith, length-append s r)) ∙ take-append s r

-- An expression in which no group has this number.
abbrev pub avoids : ℕ → Regexp → Bool
avoids i empty = true
avoids i (one p) = true
avoids i (cat r s) = avoids i r && avoids i s
avoids i (alt r s) = avoids i r && avoids i s
avoids i (star r) = avoids i r
avoids i (lazy_star r) = avoids i r
avoids i (group n r) = not (n == i) && avoids i r
avoids i begin_text = true
avoids i end_text = true
avoids i word_boundary = true

abbrev SameGroup : ℕ → Cursor → Cursor → Type 0
SameGroup i c d = group_of i d.groups ≡ group_of i c.groups

SameGroup-eq : (i : ℕ) (c d : Cursor) → d ≡ c → SameGroup i c d
SameGroup-eq i c d e = ap (λ x. group_of i x.groups) e

Rounds-SameGroup :
    (i : ℕ) {R : Cursor → Cursor → Type 0} {c d : Cursor}
    → ((c d : Cursor) → R c d → SameGroup i c d)
    → Rounds R c d
    → SameGroup i c d
Rounds-SameGroup i h (stop c) = refl
Rounds-SameGroup i h (more {c} {d} {e} r rs) = Rounds-SameGroup i h rs ∙ h c d r

-- A match leaves the groups alone that the expression does not have.
pub avoids-SameGroup :
    (i : ℕ) (r : Regexp) (c d : Cursor)
    → avoids i r ≡ true
    → Derives r c d
    → group_of i d.groups ≡ group_of i c.groups
unfolding group_of
avoids-SameGroup i empty c d h m = SameGroup-eq i c d m
avoids-SameGroup i (one p) c d h (x, xs, e, t, q) = ap (λ y. group_of i y.groups) q
avoids-SameGroup i (cat r s) c d h (e, m, n) =
    avoids-SameGroup i s e d (ground arith) n ∙ avoids-SameGroup i r c e (ground arith) m
avoids-SameGroup i (alt r s) c d h (inl m) = avoids-SameGroup i r c d (ground arith) m
avoids-SameGroup i (alt r s) c d h (inr m) = avoids-SameGroup i s c d (ground arith) m
avoids-SameGroup i (star r) c d h m = Rounds-SameGroup i (λ c d. avoids-SameGroup i r c d h) m
avoids-SameGroup i (lazy_star r) c d h m = Rounds-SameGroup i (λ c d. avoids-SameGroup i r c d h) m
avoids-SameGroup i (group n r) c d h (e, m, q) =
    ap (λ x. group_of i x.groups) q ∙ (skip ∙ avoids-SameGroup i r c e (ground arith) m)
  where
    skip : group_of i ((n, taken c.rest e.rest) ∷ e.groups) ≡ group_of i e.groups
    skip = ground arith
avoids-SameGroup i begin_text c d h m = SameGroup-eq i c d m.1
avoids-SameGroup i end_text c d h m = SameGroup-eq i c d m.1
avoids-SameGroup i word_boundary c d h m = SameGroup-eq i c d m.1

-- A sequence of classes takes a text that fits them.
pub seq-fits :
    (ps : List (ℕ → Bool)) (c d : Cursor)
    → Derives (seq ps) c d
    → (s : Text) × (fits ps s ≡ true) × (c.rest ≡ s ++ d.rest) × (d.groups ≡ c.groups)
seq-fits [] c d m = ([], refl, sym (ap (λ x. x.rest) m), ap (λ x. x.groups) m)
seq-fits (p ∷ ps) c d (e, (x, xs, q, t, w), m) =
    let (s, f, r, g) = seq-fits ps e d m in (x ∷ s, ground arith, ground arith, ground arith)

-- The group that the expression adds holds the text it took.
group-text :
    (c d e : Cursor) (s : Text)
    → c.rest ≡ s ++ e.rest
    → e.groups ≡ c.groups
    → d ≡ record e { groups = (1, taken c.rest e.rest) ∷ e.groups }
    → d.groups ≡ (1, s) ∷ c.groups
group-text c d e s r g q =
    ap (λ x. x.groups) q
    ∙ (ap (λ x. (1, taken x e.rest) ∷ e.groups) r
        ∙ (ap (λ x. (1, x) ∷ e.groups) (taken-append s e.rest) ∙ ap (λ x. (1, s) ∷ x) g))

-- An address with or without its domain, in group 1.
pub address-fits :
    (domain slot : List (ℕ → Bool)) (c d : Cursor)
    → Derives (group 1 (cat (opt (seq domain)) (seq slot))) c d
    → (s : Text) × ((fits slot s ≡ true) ⊎ (fits (domain ++ slot) s ≡ true))
      × (c.rest ≡ s ++ d.rest)
      × (d.groups ≡ (1, s) ∷ c.groups)
address-fits domain slot c d (e, (b, inr skip, tail), q) =
    let (s, f, r, g) = seq-fits slot b e tail in
    let start : c.rest ≡ s ++ e.rest = ap (λ x. x.rest) (sym skip) ∙ r in
    (
      s,
      inl f,
      start ∙ ap (◌++◌ s) (ap (λ x. x.rest) (sym q)),
      group-text c d e s start (g ∙ ap (λ x. x.groups) skip) q,
    )
address-fits domain slot c d (e, (b, inl head, tail), q) =
    let (s, f, r, g) = seq-fits domain c b head in
    let (t, f', r', g') = seq-fits slot b e tail in
    let start : c.rest ≡ (s ++ t) ++ e.rest =
      r ∙ (ap (◌++◌ s) r' ∙ sym (append_assoc s t e.rest)) in
    (
      s ++ t,
      inr (fits-append domain slot s t f f'),
      start ∙ ap (◌++◌ (s ++ t)) (ap (λ x. x.rest) (sym q)),
      group-text c d e (s ++ t) start (g' ∙ g) q,
    )

-- A match that `find_from` found, behind a part of the text.
abbrev pub Found : Regexp → Option ℕ → Text → Cursor → Type 0
Found r before s c =
    (pre : Text) × (b : Cursor) × (s ≡ pre ++ b.rest)
    × (b.groups ≡ [])
    × Derives r b c
    × (b.before ≡ none → (pre ≡ []) × (before ≡ none))

same_match : (d c : Cursor) → some d ≡ some c → d ≡ c
same_match d c e = cc

match_here-Found :
    (r : Regexp) (before : Option ℕ) (s : Text) (c : Cursor)
    → match_here r before s ≡ some c
    → Found r before s c
unfolding match_here
match_here-Found r before s c h =
    let start : Cursor = record { before = before; rest = s; groups = [] } in
    let (d, m, e) = run_sound r start some c h in
    ([], start, refl, refl, subst (Derives r start) (same_match d c e) m, λ b. (refl, b))

find_from-Found :
    (r : Regexp) (before : Option ℕ) (s : Text) (c : Cursor)
    → find_from r before s ≡ some c
    → Found r before s c
unfolding find_from
find_from-Found r before [] c h = match_here-Found r before [] c h
find_from-Found r before (x ∷ s) c h = elim (Option-cases (match_here r before (x ∷ s))) [
  | inr (y, e) ↦ match_here-Found r before (x ∷ s) c (e ∙ (rw (e, find_from) at h))
  | inl e ↦
      let (pre, b, p, g, m, first) = find_from-Found r (some x) s c (rw (e, find_from) at h) in
      (x ∷ pre, b, ap (◌∷◌ x) p, g, m, λ n. absurd (ground (arith, (first n).1)))
]

pub find_submatch-Found :
    (r : Regexp) (s : Text) (c : Cursor) → find_submatch r s ≡ some c → Found r none s c
unfolding find_submatch
find_submatch-Found r s c h = find_from-Found r none s c h
