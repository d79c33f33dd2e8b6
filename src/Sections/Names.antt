-- ===== src/Sections/Names.antt =====
-- c_monitor/sections.c: the loop of section_find, by the names of the sections.
use fuzz_monitor.Base.{
  ℕ, suc, ◌+◌, ◌≡◌, ◌≢◌, refl, ap, ◌∙◌, inl, inr, false, List, [], ◌∷◌, ◌++◌, All, none, some,
  length, drop, get_elem?, ◌==◌, Bool-cases, Option-cases, arith,
}
use fuzz_monitor.Text.{Text, contains}
use fuzz_monitor.Text.Search.{contains-append, contains-split}
use fuzz_monitor.Sections.{ElfShdr, c_string, returned, bounds_of, extent, match_entries, entry_at}

-- A name stands in the section of strings, up to a 0.
abbrev pub IsName : List ℕ → ElfShdr → Text → Type 0
IsName strings sh name =
    (rest : List ℕ) × (drop sh.sh_name strings ≡ name ++ 0 ∷ rest) × All (λ c. c ≢ 0) name

c_string_lem :
    (name rest : List ℕ) → All (λ c. c ≢ 0) name → c_string (name ++ 0 ∷ rest) ≡ some name
unfolding c_string
c_string_lem [] rest h = elim (Option-cases (c_string rest)) [
  | inl e ↦ rw (e, c_string) refl
  | inr (text, e) ↦ rw (e, c_string) refl
]
c_string_lem (c ∷ name) rest h =
    let more : (c == 0) ≡ false = ground (arith, h.0) in
    rw (c_string_lem name rest h.1, c_string, more) refl

-- The name of the section does not have the text in it.
abbrev pub LacksName : List ℕ → Text → ElfShdr → Type 0
LacksName strings sec_name sh =
    (name : Text) × IsName strings sh name
    × ((before after : Text) → name ≢ before ++ (sec_name ++ after))

abbrev pub FindsName : List ℕ → Text → ElfShdr → Type 0
FindsName strings sec_name sh =
    (before : Text) × (after : Text) × IsName strings sh (before ++ (sec_name ++ after))

module _ (table : List ℕ) where
  -- The entries of the table from a number on are those of a list.
  abbrev pub AreEntries : ℕ → List ElfShdr → Type 0
  AreEntries i sections =
      (k : ℕ) (sh : ElfShdr) → get_elem? sections k ≡ some sh → entry_at table (i + k) ≡ some sh

  AreEntries-tail :
      (i : ℕ) (s : ElfShdr) (sections : List ElfShdr)
      → AreEntries i (s ∷ sections)
      → AreEntries (i + 1) sections
  AreEntries-tail i s sections all k sh at =
      let place : i + 1 + k ≡ i + suc k = omega arith in
      ap (entry_at table) place ∙ all (suc k) sh at

  first_entry :
      (i : ℕ) (s : ElfShdr) (sections : List ElfShdr)
      → AreEntries i (s ∷ sections)
      → entry_at table i ≡ some s
  first_entry i s sections all =
      let place : i ≡ i + 0 = omega arith in ap (entry_at table) place ∙ all 0 s refl

module _ (table strings : List ℕ) (sec_name : Text) where
  -- A section without the name is passed by.
  passes_by :
      (i : ℕ) (s : ElfShdr) (sections : List ElfShdr)
      → AreEntries table i (s ∷ sections)
      → LacksName strings sec_name s
      → match_entries strings table sec_name i (suc (length sections))
        ≡ match_entries strings table sec_name (i + 1) (length sections)
  unfolding match_entries
  passes_by i s sections all (name, (rest, at, ends), apart) =
      let read = ap c_string at ∙ c_string_lem name rest ends in
      elim (Bool-cases (contains name sec_name)) [
        | inl found ↦
            let (before, after, e) = contains-split name sec_name found in
            absurd (apart before after e)
        | inr absent ↦ rw (first_entry table i s sections all, match_entries, read, absent) refl
      ]

  pub match_entries-first :
      (i : ℕ) (pre post : List ElfShdr) (s : ElfShdr)
      → AreEntries table i (pre ++ s ∷ post)
      → All (LacksName strings sec_name) pre
      → FindsName strings sec_name s
      → match_entries strings table sec_name i (length (pre ++ s ∷ post))
        ≡ returned (extent (bounds_of s)) (some (bounds_of s))
  unfolding match_entries
  match_entries-first i [] post s all lacking (before, after, (rest, at, ends)) =
      let name = before ++ (sec_name ++ after) in
      let read = ap c_string at ∙ c_string_lem name rest ends in
      let found = contains-append before sec_name after in
      rw (first_entry table i s post all, match_entries, read, found) refl
  match_entries-first i (p ∷ pre) post s all lacking found =
      passes_by i p (pre ++ s ∷ post) all lacking.0
      ∙ match_entries-first (i + 1) pre post s (AreEntries-tail table i p (pre ++ s ∷ post) all)
          lacking.1 found

  pub match_entries-none :
      (i : ℕ) (sections : List ElfShdr)
      → AreEntries table i sections
      → All (LacksName strings sec_name) sections
      → match_entries strings table sec_name i (length sections) ≡ returned 0 none
  unfolding match_entries
  match_entries-none i [] all lacking = refl
  match_entries-none i (p ∷ sections) all lacking =
      passes_by i p sections all lacking.0
      ∙ match_entries-none (i + 1) sections (AreEntries-tail table i p sections all) lacking.1
