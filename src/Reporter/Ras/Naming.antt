-- ===== src/Reporter/Ras/Naming.antt =====
-- Which lines name an address for the RAS reporter.
use spyre_health_checker.Base.{
  ◌≡◌, refl, sym, ap, subst, ◌∙◌, ◌⊎◌, inl, inr, ◌↔◌, true, false, [], ◌∷◌, ◌++◌, none,
  Option-cases, Text, map, arith, ==_iff,
}
use spyre_health_checker.Regexp.{
  Cursor, cat, opt, seq, group, exact, group_of, taken, find_submatch,
}
use spyre_health_checker.Regexp.Sound.{Derives}
use spyre_health_checker.Regexp.Shape.{fits, seq-fits, address-fits, Found, find_submatch-Found}
use spyre_health_checker.Regexp.Complete.{is_found}
use spyre_health_checker.Regexp.Search.{last_of, find_submatch_complete, fits-Derives, seq-append}
use spyre_health_checker.Reporter.Ras.Logs.{
  sen_domain, sen_slot, sen_prefix, sen_pci_re, extract_sen_pci_address, normalised, is_empty,
}
use spyre_health_checker.Reporter.Ras.Address.{IsSenAddress, match-IsSenAddress}

-- An address with or without its domain.
abbrev IsSenSlot : Text → Type 0
IsSenSlot a = (fits sen_slot a ≡ true) ⊎ (fits (sen_domain ++ sen_slot) a ≡ true)

-- The line has such an address somewhere behind the prefix.
abbrev pub NamesSen : Text → Type 0
NamesSen line =
    (pre : Text) × (a : Text) × (post : Text) × IsSenSlot a
    × (line ≡ pre ++ (sen_prefix ++ (a ++ post)))

fits-exact : (t s : Text) → fits (map exact t) s ≡ true → s ≡ t
fits-exact [] [] f = refl
fits-exact [] (x ∷ s) f = cc
fits-exact (y ∷ t) [] f = cc
fits-exact (y ∷ t) (x ∷ s) f =
    let rest = fits-exact t s (ground arith) in let head = (==_iff x y).0 (ground arith) in cc

match-NamesSen : (line : Text) (c : Cursor) → Found sen_pci_re none line c → NamesSen line
match-NamesSen line c (pre, b, p, g, (d, prefix, pci), first) =
    let (s, f, r, q) = seq-fits (map exact sen_prefix) b d prefix in
    let (a, f', r', q') = address-fits sen_domain sen_slot d c pci in
    (
      pre,
      a,
      c.rest,
      f',
      p
          ∙ ap (λ x. pre ++ x)
              (r
                ∙ (ap (λ x. x ++ d.rest) (fits-exact sen_prefix s f)
                    ∙ ap (λ x. sen_prefix ++ x) r')),
    )

address-Derives :
    (a post : Text) (c : Cursor)
    → IsSenSlot a
    → c.rest ≡ a ++ post
    → (d : Cursor) × Derives (group 1 (cat (opt (seq sen_domain)) (seq sen_slot))) c d
address-Derives a post c (inl f) e =
    let (d, m, q) = fits-Derives sen_slot a post c f e in
    (record d { groups = (1, taken c.rest d.rest) ∷ d.groups }, (d, (c, inr refl, m), refl))
address-Derives a post c (inr f) e =
    let (d, m, q) = fits-Derives (sen_domain ++ sen_slot) a post c f e in
    let (b, domain, slot) = seq-append sen_domain sen_slot c d m in
    (record d { groups = (1, taken c.rest d.rest) ∷ d.groups }, (d, (b, inl domain, slot), refl))

NamesSen-found : (line : Text) → NamesSen line → is_found (find_submatch sen_pci_re line) ≡ true
NamesSen-found line (pre, a, post, f, e) =
    let start : Cursor = record {
      before = last_of none pre;
      rest = sen_prefix ++ (a ++ post);
      groups = [];
    } in
    let (b, m, q) = fits-Derives (map exact sen_prefix) sen_prefix (a ++ post) start refl refl in
    let (d, n) = address-Derives a post b f q in
    subst (λ x. is_found (find_submatch sen_pci_re x) ≡ true) (sym e)
      (find_submatch_complete sen_pci_re pre (sen_prefix ++ (a ++ post)) d refl (b, m, n))

complete-nonempty : (a : Text) → IsSenAddress a → is_empty a ≡ false
complete-nonempty [] f = cc
complete-nonempty (x ∷ a) f = refl

-- An address is read from a line exactly if the line has an address, with or without its domain and
-- with digits in lower case, behind the text SEN:VFIO:TYPE1: anywhere.
pub extract_iff : (line : Text) → (is_empty (extract_sen_pci_address line) ≡ false) ↔ NamesSen line
unfolding extract_sen_pci_address
extract_iff line = elim (Option-cases (find_submatch sen_pci_re line)) [
  | inl e ↦ (
    λ h. absurd (ground (arith, rw (e, extract_sen_pci_address) at h)),
    λ n. absurd (ground (arith, NamesSen-found line n)),
  )
  | inr (c, e) ↦
      let found = find_submatch-Found sen_pci_re line c e in
      (
        λ h. match-NamesSen line c found,
        λ n.
            rw (e, extract_sen_pci_address)
              (complete-nonempty (normalised (group_of 1 c.groups))
                (match-IsSenAddress line c found)),
      )
]
