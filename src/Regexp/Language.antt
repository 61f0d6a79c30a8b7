-- ===== src/Regexp/Language.antt =====
-- Expressions as languages: the texts that an expression without a search order stands for, and that
-- a match takes such a text.
use mathlib.Core.List.{append_assoc}
use spyre_health_checker.Base.{
  ℕ, ◌≡◌, refl, sym, ap, ◌∙◌, ◌⊎◌, inl, inr, Bool, true, false, ◌&&◌, [], ◌∷◌, ◌++◌, some, Text,
  arith,
}
use spyre_health_checker.Regexp.{
  Regexp, empty, one, cat, alt, star, lazy_star, group, begin_text, end_text, word_boundary, Cursor,
  taken,
}
use spyre_health_checker.Regexp.Sound.{Derives, Rounds, stop, more}

-- A text made of any number of parts.
pub data Parts (L : Text → Type 0) : Text → Type 0 where
  no_part : Parts L []
  part : {s t : Text} → L s → Parts L t → Parts L (s ++ t)

-- The texts of an expression. The ends of the text have no text of their own.
abbrev pub Language : Regexp → Text → Type 0
Language empty s = s ≡ []
Language (one p) s = (x : ℕ) × (s ≡ x ∷ []) × (p x ≡ true)
Language (cat r q) s = (t : Text) × (u : Text) × (s ≡ t ++ u) × Language r t × Language q u
Language (alt r q) s = Language r s ⊎ Language q s
Language (star r) s = Parts (Language r) s
Language (lazy_star r) s = Parts (Language r) s
Language (group n r) s = Language r s
Language begin_text s = s ≡ []
Language end_text s = s ≡ []
Language word_boundary s = s ≡ []

abbrev Takes : (Text → Type 0) → Cursor → Cursor → Type 0
Takes L c d = (s : Text) × L s × (c.rest ≡ s ++ d.rest)

same-Takes : (c d : Cursor) → d ≡ c → Takes (λ s. s ≡ []) c d
same-Takes c d e = ([], refl, sym (ap (λ x. x.rest) e))

Rounds-Takes :
    {L : Text → Type 0} {R : Cursor → Cursor → Type 0} {c d : Cursor}
    → ((c d : Cursor) → R c d → Takes L c d)
    → Rounds R c d
    → Takes (Parts L) c d
Rounds-Takes h (stop c) = ([], no_part, refl)
Rounds-Takes h (more {c} {d} {e} r rs) =
    let (s, l, p) = h c d r in
    let (t, ls, q) = Rounds-Takes h rs in
    (s ++ t, part l ls, p ∙ (ap (λ x. s ++ x) q ∙ sym (append_assoc s t e.rest)))

-- A match takes a text of the language.
pub Derives-Language :
    (r : Regexp) (c d : Cursor) → Derives r c d → (s : Text) × Language r s × (c.rest ≡ s ++ d.rest)
Derives-Language empty c d m = same-Takes c d m
Derives-Language (one p) c d (x, xs, q, t, w) =
    (x ∷ [], (x, refl, t), q ∙ ap (λ y. x ∷ y.rest) (sym w))
Derives-Language (cat r q) c d (e, m, n) =
    let (s, l, p) = Derives-Language r c e m in
    let (t, k, o) = Derives-Language q e d n in
    (s ++ t, (s, t, refl, l, k), p ∙ (ap (λ x. s ++ x) o ∙ sym (append_assoc s t d.rest)))
Derives-Language (alt r q) c d (inl m) = let (s, l, p) = Derives-Language r c d m in (s, inl l, p)
Derives-Language (alt r q) c d (inr m) = let (s, l, p) = Derives-Language q c d m in (s, inr l, p)
Derives-Language (star r) c d m = Rounds-Takes (λ c d. Derives-Language r c d) m
Derives-Language (lazy_star r) c d m = Rounds-Takes (λ c d. Derives-Language r c d) m
Derives-Language (group n r) c d (e, m, q) =
    let (s, l, p) = Derives-Language r c e m in (s, l, p ∙ ap (λ x. s ++ x.rest) (sym q))
Derives-Language begin_text c d m = same-Takes c d m.1
Derives-Language end_text c d m = same-Takes c d m.1
Derives-Language word_boundary c d m = same-Takes c d m.1

-- An expression that does not ask where in the text it stands.
abbrev pub is_free : Regexp → Bool
is_free empty = true
is_free (one p) = true
is_free (cat r q) = is_free r && is_free q
is_free (alt r q) = is_free r && is_free q
is_free (star r) = is_free r
is_free (lazy_star r) = is_free r
is_free (group n r) = is_free r
is_free begin_text = false
is_free end_text = false
is_free word_boundary = false

-- Every text of a language is taken by a match.
abbrev Gives : (Text → Type 0) → (Cursor → Cursor → Type 0) → Type 0
Gives L R = (s t : Text) (c : Cursor) → L s → c.rest ≡ s ++ t → (d : Cursor) × R c d × (d.rest ≡ t)

Parts-Rounds :
    {L : Text → Type 0} {R : Cursor → Cursor → Type 0} {s : Text}
    → Gives L R
    → Parts L s
    → (t : Text) (c : Cursor) → c.rest ≡ s ++ t
    → (d : Cursor) × Rounds R c d × (d.rest ≡ t)
Parts-Rounds h no_part t c e = (c, stop c, e)
Parts-Rounds h (part {s} {t = u} l ls) t c e =
    let (b, m, q) = h s (u ++ t) c l (e ∙ append_assoc s u t) in
    let (d, ms, w) = Parts-Rounds h ls t b q in (d, more m ms, w)

pub Language-Derives : (r : Regexp) → is_free r ≡ true → Gives (Language r) (Derives r)
Language-Derives empty f s t c l e = (c, refl, e ∙ ap (λ x. x ++ t) l)
Language-Derives (one p) f s t c (x, q, h) e =
    (record c { before = some x; rest = t }, (x, t, e ∙ ap (λ y. y ++ t) q, h, refl), refl)
Language-Derives (cat r q) f s t c (u, v, w, l, k) e =
    let (b, m, o) =
      Language-Derives r (ground arith) u (v ++ t) c l
        (e ∙ (ap (λ x. x ++ t) w ∙ append_assoc u v t)) in
    let (d, n, o') = Language-Derives q (ground arith) v t b k o in (d, (b, m, n), o')
Language-Derives (alt r q) f s t c (inl l) e =
    let (d, m, o) = Language-Derives r (ground arith) s t c l e in (d, inl m, o)
Language-Derives (alt r q) f s t c (inr l) e =
    let (d, m, o) = Language-Derives q (ground arith) s t c l e in (d, inr m, o)
Language-Derives (star r) f s t c l e = Parts-Rounds (Language-Derives r f) l t c e
Language-Derives (lazy_star r) f s t c l e = Parts-Rounds (Language-Derives r f) l t c e
Language-Derives (group n r) f s t c l e =
    let (d, m, o) = Language-Derives r f s t c l e in
    (record d { groups = (n, taken c.rest d.rest) ∷ d.groups }, (d, m, refl), o)
Language-Derives begin_text f s t c l e = cc
Language-Derives end_text f s t c l e = cc
Language-Derives word_boundary f s t c l e = cc

-- An expression that asks for the end of the text as its last part, and for no other place.
abbrev pub ends : Regexp → Bool
ends (cat r q) = is_free r && ends q
ends end_text = true
ends _ = false

pub ends-Derives :
    (r : Regexp) (s : Text) (c : Cursor)
    → ends r ≡ true
    → Language r s
    → c.rest ≡ s
    → (d : Cursor) × Derives r c d
ends-Derives (cat r q) s c f (u, v, w, l, k) e =
    let (b, m, o) = Language-Derives r (ground arith) u v c l (e ∙ w) in
    let (d, n) = ends-Derives q v b (ground arith) k o in (d, (b, m, n))
ends-Derives end_text s c f l e = (c, (e ∙ l, refl))
ends-Derives empty s c f l e = cc
ends-Derives (one p) s c f l e = cc
ends-Derives (alt r q) s c f l e = cc
ends-Derives (star r) s c f l e = cc
ends-Derives (lazy_star r) s c f l e = cc
ends-Derives (group n r) s c f l e = cc
ends-Derives begin_text s c f l e = cc
ends-Derives word_boundary s c f l e = cc

-- It leaves nothing of the text.
pub ends-rest : (r : Regexp) (c d : Cursor) → ends r ≡ true → Derives r c d → d.rest ≡ []
ends-rest (cat r q) c d f (e, m, n) = ends-rest q e d (ground arith) n
ends-rest end_text c d f (h, q) = ap (λ x. x.rest) q ∙ h
ends-rest empty c d f m = cc
ends-rest (one p) c d f m = cc
ends-rest (alt r q) c d f m = cc
ends-rest (star r) c d f m = cc
ends-rest (lazy_star r) c d f m = cc
ends-rest (group n r) c d f m = cc
ends-rest begin_text c d f m = cc
ends-rest word_boundary c d f m = cc
