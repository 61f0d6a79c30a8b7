-- ===== src/Regexp/Complete.antt =====
-- The matcher finds a match wherever there is one, for expressions whose repetitions take characters.
use spyre_health_checker.Base.{
  ℕ, zero, suc, ◌≡◌, ◌<◌, ◌≤◌, refl, sym, ap, subst, ◌∙◌, inl, inr, Bool, true, false, Bool-cases,
  ◌&&◌, ◌||◌, [], ◌∷◌, Option, none, some, Text, length, arith,
}
use spyre_health_checker.Regexp.{
  Regexp, empty, one, cat, alt, star, lazy_star, group, begin_text, end_text, word_boundary, Cursor,
  Next, taken, moved, run_one, run_star, run_lazy, run,
}
use spyre_health_checker.Regexp.Sound.{Derives, Rounds, stop, more}

-- Every match of the expression takes a character.
abbrev pub takes : Regexp → Bool
takes empty = false
takes (one p) = true
takes (cat r s) = takes r || takes s
takes (alt r s) = takes r && takes s
takes (star r) = false
takes (lazy_star r) = false
takes (group n r) = takes r
takes begin_text = false
takes end_text = false
takes word_boundary = false

-- Every repetition is of a part that takes a character.
abbrev pub repeats_taking : Regexp → Bool
repeats_taking empty = true
repeats_taking (one p) = true
repeats_taking (cat r s) = repeats_taking r && repeats_taking s
repeats_taking (alt r s) = repeats_taking r && repeats_taking s
repeats_taking (star r) = takes r && repeats_taking r
repeats_taking (lazy_star r) = takes r && repeats_taking r
repeats_taking (group n r) = repeats_taking r
repeats_taking begin_text = true
repeats_taking end_text = true
repeats_taking word_boundary = true

-- A match leaves no more than there was, and less if the expression takes a character.
abbrev Shrinks : Bool → Cursor → Cursor → Type 0
Shrinks strict c d =
    (length d.rest ≤ length c.rest) × (strict ≡ true → length d.rest < length c.rest)

Shrinks-same : (c d : Cursor) → d ≡ c → Shrinks false c d
Shrinks-same c d e = (subst (λ x. length x.rest ≤ length c.rest) (sym e) (omega arith), λ h. cc)

Rounds-Shrinks :
    {R : Cursor → Cursor → Type 0} {c d : Cursor}
    → ((c d : Cursor) → R c d → length d.rest ≤ length c.rest)
    → Rounds R c d
    → Shrinks false c d
Rounds-Shrinks h (stop c) = (omega arith, λ e. cc)
Rounds-Shrinks h (more {c} {d} {e} r rs) =
    let less = h c d r in let (rest, unused) = Rounds-Shrinks h rs in (omega arith, λ e. cc)

Derives-Shrinks : (r : Regexp) (c d : Cursor) → Derives r c d → Shrinks (takes r) c d
Derives-Shrinks empty c d m = Shrinks-same c d m
Derives-Shrinks (one p) c d (x, xs, q, t, w) =
    let a : length c.rest ≡ suc (length xs) = ap length q in
    let b : length d.rest ≡ length xs = ap (λ y. length y.rest) w in (omega arith, λ h. omega arith)
Derives-Shrinks (cat r s) c d (e, m, n) =
    let (a, a') = Derives-Shrinks r c e m in
    let (b, b') = Derives-Shrinks s e d n in
    (
      omega arith,
      λ h. elim (Bool-cases (takes r)) [
        | inl t ↦ let x = a' t in omega arith
        | inr t ↦ let y = b' (ground arith) in omega arith
      ],
    )
Derives-Shrinks (alt r s) c d (inl m) =
    let (a, a') = Derives-Shrinks r c d m in (a, λ h. a' (ground arith))
Derives-Shrinks (alt r s) c d (inr m) =
    let (a, a') = Derives-Shrinks s c d m in (a, λ h. a' (ground arith))
Derives-Shrinks (star r) c d m = Rounds-Shrinks (λ c d n. (Derives-Shrinks r c d n).0) m
Derives-Shrinks (lazy_star r) c d m = Rounds-Shrinks (λ c d n. (Derives-Shrinks r c d n).0) m
Derives-Shrinks (group n r) c d (e, m, q) =
    subst (λ x. Shrinks (takes r) c x) (sym q) (Derives-Shrinks r c e m)
Derives-Shrinks begin_text c d m = Shrinks-same c d m.1
Derives-Shrinks end_text c d m = Shrinks-same c d m.1
Derives-Shrinks word_boundary c d m = Shrinks-same c d m.1

abbrev pub is_found : Option Cursor → Bool
is_found none = false
is_found (some c) = true

pub first_found :
    (o p : Option Cursor)
    → is_found o ≡ true
    → is_found (elim o [ some r ↦ some r | none ↦ p ]) ≡ true
first_found none p h = cc
first_found (some r) p h = refl

pub second_found :
    (o p : Option Cursor)
    → is_found p ≡ true
    → is_found (elim o [ some r ↦ some r | none ↦ p ]) ≡ true
second_found none p h = h
second_found (some r) p h = refl

-- What the rest of the expression accepts behind a match, the matcher finds.
abbrev Completes : (Cursor → Cursor → Type 0) → (Cursor → Next → Option Cursor) → Type 0
Completes R round =
    (c d : Cursor) (k : Next) → R c d → is_found (k d) ≡ true → is_found (round c k) ≡ true

moved_found :
    (c d : Cursor) (k : Next)
    → length d.rest < length c.rest
    → is_found (k d) ≡ true
    → is_found (moved c k d) ≡ true
moved_found c d k less h = ground arith

module _ (R : Cursor → Cursor → Type 0) (round : Cursor → Next → Option Cursor)
    (complete : Completes R round)
    (shorter : (c d : Cursor) → R c d → length d.rest < length c.rest) where
  run_star_complete :
      (f : ℕ) (c d : Cursor) (k : Next)
      → Rounds R c d
      → length c.rest < f
      → is_found (k d) ≡ true
      → is_found (run_star f round c k) ≡ true
  unfolding run_star
  run_star_complete zero c d k rs fuel h = absurd (omega arith)
  run_star_complete (suc f) _ _ k (stop c) fuel h =
      second_found (round c (moved c (λ d. run_star f round d k))) (k c) h
  run_star_complete (suc f) _ _ k (more {c} {d} {e} r rs) fuel h =
      let less = shorter c d r in
      first_found (round c (moved c (λ d. run_star f round d k))) (k c) (
        complete c d (moved c (λ d. run_star f round d k)) r (
          moved_found c d (λ d. run_star f round d k) less
            (run_star_complete f d e k rs (omega arith) h)))

  run_lazy_complete :
      (f : ℕ) (c d : Cursor) (k : Next)
      → Rounds R c d
      → length c.rest < f
      → is_found (k d) ≡ true
      → is_found (run_lazy f round c k) ≡ true
  unfolding run_lazy
  run_lazy_complete zero c d k rs fuel h = absurd (omega arith)
  run_lazy_complete (suc f) _ _ k (stop c) fuel h =
      first_found (k c) (round c (moved c (λ d. run_lazy f round d k))) h
  run_lazy_complete (suc f) _ _ k (more {c} {d} {e} r rs) fuel h =
      let less = shorter c d r in
      second_found (k c) (round c (moved c (λ d. run_lazy f round d k))) (
        complete c d (moved c (λ d. run_lazy f round d k)) r (
          moved_found c d (λ d. run_lazy f round d k) less
            (run_lazy_complete f d e k rs (omega arith) h)))

run_one_complete :
    (p : ℕ → Bool) (c d : Cursor) (s : Text) (k : Next)
    → c.rest ≡ s
    → Derives (one p) c d
    → is_found (k d) ≡ true
    → is_found (run_one p c s k) ≡ true
unfolding run_one
run_one_complete p c d [] k e (x, xs, q, t, w) h = cc
run_one_complete p c d (y ∷ ys) k e (x, xs, q, t, w) h =
    let head : y ≡ x = cc in
    let tail : ys ≡ xs = cc in
    rw (ap p head ∙ t, run_one)
      (subst (λ z. is_found (k (record c { before = some z; rest = ys })) ≡ true) (sym head)
        (subst (λ z. is_found (k (record c { before = some x; rest = z })) ≡ true) (sym tail)
          (subst (λ z. is_found (k z) ≡ true) w h)))

found_at : (k : Next) (c d : Cursor) → d ≡ c → is_found (k d) ≡ true → is_found (k c) ≡ true
found_at k c d e h = subst (λ x. is_found (k x) ≡ true) e h

pub run_complete : (r : Regexp) → repeats_taking r ≡ true → Completes (Derives r) (run r)
unfolding run
run_complete empty t c d k m h = found_at k c d m h
run_complete (one p) t c d k m h = run_one_complete p c d c.rest k refl m h
run_complete (cat r s) t c d k (e, m, n) h =
    run_complete r (ground arith) c e (λ e. run s e k) m (run_complete s (ground arith) e d k n h)
run_complete (alt r s) t c d k (inl m) h =
    first_found (run r c k) (run s c k) (run_complete r (ground arith) c d k m h)
run_complete (alt r s) t c d k (inr m) h =
    second_found (run r c k) (run s c k) (run_complete s (ground arith) c d k m h)
run_complete (star r) t c d k m h =
    run_star_complete (Derives r) (run r) (run_complete r (ground arith))
      (λ c d n. (Derives-Shrinks r c d n).1 (ground arith)) (suc (length c.rest)) c d k m
      (omega arith) h
run_complete (lazy_star r) t c d k m h =
    run_lazy_complete (Derives r) (run r) (run_complete r (ground arith))
      (λ c d n. (Derives-Shrinks r c d n).1 (ground arith)) (suc (length c.rest)) c d k m
      (omega arith) h
run_complete (group n r) t c d k (e, m, q) h =
    run_complete r t c e (λ d. k (record d { groups = (n, taken c.rest d.rest) ∷ d.groups })) m
      (found_at k (record e { groups = (n, taken c.rest e.rest) ∷ e.groups }) d q h)
run_complete begin_text t c d k (b, q) h = rw (b, run) (found_at k c d q h)
run_complete end_text t c d k (b, q) h = rw (b, run) (found_at k c d q h)
run_complete word_boundary t c d k (b, q) h = rw (b, run) (found_at k c d q h)
