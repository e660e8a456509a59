-- ===== src/SerialPort/Texts.antt =====
-- `std::string::find` and `find_last_of` in a text whose parts are known, for query_com_port.
use ubiquitous_chainsaw.Base.{
  ℕ, ◌≡◌, refl, ap, ◌∙◌, ◌≢◌, Bool, true, false, List, [], ◌∷◌, ◌++◌, ◌==◌, length, Option, none,
  some, arith, inl, inr, Bool-cases, ==_iff, ==_self,
}
use ubiquitous_chainsaw.SerialPort.Search.{
  starts_with, find_text, find_last_of, found, later, later_or, com_text,
}

-- No byte of the text is the one given.
abbrev pub Lacks : ℕ → List ℕ → Type 0
Lacks char text = find_last_of char text ≡ none

abbrev pub Contains : List ℕ → List ℕ → Type 0
Contains pattern text = (before : List ℕ) × (after : List ℕ) × (text ≡ before ++ (pattern ++ after))

starts_with-append : (pattern rest : List ℕ) → starts_with pattern (pattern ++ rest) ≡ true
unfolding starts_with
starts_with-append [] rest = refl
starts_with-append (p ∷ pattern) rest = rw (==_self p, starts_with-append pattern rest)

starts_with-split :
    (pattern text : List ℕ)
    → starts_with pattern text ≡ true
    → (rest : List ℕ) × (text ≡ pattern ++ rest)
unfolding starts_with
starts_with-split [] text h = (text, refl)
starts_with-split (p ∷ pattern) [] h = absurd cc
starts_with-split (p ∷ pattern) (c ∷ text) h = elim (Bool-cases (p == c)) [
  | inl e ↦
      let (rest, is_split) = starts_with-split pattern text (rw e at h) in
      (rest, rw (← (==_iff p c).0 e, is_split))
  | inr e ↦ let impossible = rw e at h in absurd cc
]

found_later : (o : Option ℕ) → found (later o) ≡ true → found o ≡ true
found_later none h = h
found_later (some i) h = refl

later_found : (o : Option ℕ) → found o ≡ true → found (later o) ≡ true
later_found none h = h
later_found (some i) h = refl

later_or-none : (o : Option ℕ) (here : Bool) → later_or o here ≡ none → (o ≡ none) × (here ≡ false)
later_or-none none true h = absurd cc
later_or-none none false h = (refl, refl)
later_or-none (some i) here h = absurd cc

Lacks-tail :
    (char c : ℕ) (text : List ℕ) → Lacks char (c ∷ text) → Lacks char text × ((c == char) ≡ false)
unfolding find_last_of
Lacks-tail char c text h = later_or-none (find_last_of char text) (c == char) h

pub find_text-Contains :
    (pattern text : List ℕ) → found (find_text pattern text) ≡ true → Contains pattern text
unfolding find_text
find_text-Contains pattern [] h = absurd cc
find_text-Contains pattern (c ∷ text) h = elim (Bool-cases (starts_with pattern (c ∷ text))) [
  | inl e ↦ let (rest, is_split) = starts_with-split pattern (c ∷ text) e in ([], rest, is_split)
  | inr e ↦
      let (before, after, is_split) =
        find_text-Contains pattern text (found_later (find_text pattern text) (rw e at h)) in
      (c ∷ before, after, ap (λ t. c ∷ t) is_split)
]

pub Contains-find_text :
    (pattern before after : List ℕ)
    → pattern ≢ []
    → found (find_text pattern (before ++ (pattern ++ after))) ≡ true
unfolding find_text
Contains-find_text [] before after h = absurd (h refl)
Contains-find_text (p ∷ pattern) [] after h = rw (starts_with-append (p ∷ pattern) after)
Contains-find_text (p ∷ pattern) (c ∷ before) after h =
    elim (Bool-cases (starts_with (p ∷ pattern) ((c ∷ before) ++ ((p ∷ pattern) ++ after)))) [
      | inl e ↦ rw e
      | inr e ↦ rw e (later_found _ (Contains-find_text (p ∷ pattern) before after h))
    ]

==_flip : (a b : ℕ) → (a == b) ≡ false → (b == a) ≡ false
==_flip a b h = ground arith

-- The first "COM" of a text stands behind the bytes that have no 'C'.
pub find_text-com_text :
    (before after : List ℕ)
    → Lacks b'C' before
    → find_text com_text (before ++ (com_text ++ after)) ≡ some (length before)
unfolding find_text starts_with
find_text-com_text [] after h = refl
find_text-com_text (c ∷ before) after h =
    let (lacks, differs) = Lacks-tail b'C' c before h in
    rw (==_flip c b'C' differs, find_text-com_text before after lacks)

pub find_last_of-append :
    (char : ℕ) (before after : List ℕ)
    → Lacks char after
    → find_last_of char (before ++ (char ∷ after)) ≡ some (length before)
unfolding find_last_of
find_last_of-append char [] after h = ap (λ o. later_or o (char == char)) h ∙ rw (==_self char)
find_last_of-append char (c ∷ before) after h = rw (find_last_of-append char before after h)
