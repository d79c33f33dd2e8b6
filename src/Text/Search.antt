-- ===== src/Text/Search.antt =====
-- What strstr finds.
use fuzz_monitor.Base.{◌≡◌, refl, ap, inl, inr, true, [], ◌∷◌, ◌++◌, ◌==◌, Bool-cases, arith}
use fuzz_monitor.Text.{Text, starts_with, contains}

starts_with-append : (needle after : Text) → starts_with (needle ++ after) needle ≡ true
unfolding starts_with
starts_with-append [] [] = refl
starts_with-append [] (c ∷ after) = refl
starts_with-append (c ∷ needle) after = ground (arith, starts_with-append needle after)

starts_with-split :
    (text needle : Text)
    → starts_with text needle ≡ true
    → (after : Text) × (text ≡ needle ++ after)
unfolding starts_with
starts_with-split [] [] h = ([], refl)
starts_with-split (d ∷ text) [] h = (d ∷ text, refl)
starts_with-split [] (c ∷ needle) h = cc
starts_with-split (d ∷ text) (c ∷ needle) h = elim (Bool-cases (d == c)) [
  | inl same ↦
      let (after, e) = starts_with-split text needle (rw same at h) in
      let equal : d ≡ c = ground arith in (after, cc (equal, e))
  | inr other ↦ absurd (cc (rw other at h))
]

contains_front : (text needle : Text) → starts_with text needle ≡ true → contains text needle ≡ true
unfolding contains
contains_front [] needle h = h
contains_front (c ∷ text) needle h = rw h refl

-- A text that stands in another one is found,
pub contains-append :
    (before needle after : Text) → contains (before ++ (needle ++ after)) needle ≡ true
unfolding contains
contains-append [] needle after =
    contains_front (needle ++ after) needle (starts_with-append needle after)
contains-append (c ∷ before) needle after = ground (arith, contains-append before needle after)

-- and what is found stands there.
pub contains-split :
    (text needle : Text)
    → contains text needle ≡ true
    → (before : Text) × (after : Text) × (text ≡ before ++ (needle ++ after))
unfolding contains
contains-split [] needle h = let (after, e) = starts_with-split [] needle h in ([], after, e)
contains-split (d ∷ text) needle h = elim (Bool-cases (starts_with (d ∷ text) needle)) [
  | inl here ↦ let (after, e) = starts_with-split (d ∷ text) needle here in ([], after, e)
  | inr later ↦
      let (before, after, e) = contains-split text needle (rw later at h) in
      (d ∷ before, after, ap (◌∷◌ d) e)
]
