-- ===== src/Sections/First.antt =====
-- c_monitor/sections.c: which section section_find finds.
use fuzz_monitor.Base.{
  ℕ, ◌+◌, ◌-◌, ◌*◌, ◌%◌, ◌^◌, ◌≡◌, ap, ◌∙◌, List, ◌∷◌, ◌++◌, All, none, some, length, get_elem?,
  get_elem?-append_length, subst, arith,
}
use fuzz_monitor.Text.{Text}
use fuzz_monitor.Sections.{
  ElfShdr, header_size, Malloc, returned, bounds_of, extent, match_entries, section_find,
}
use fuzz_monitor.Sections.Names.{
  AreEntries, LacksName, FindsName, match_entries-first, match_entries-none,
}
use fuzz_monitor.Sections.Layout.{HasSections, Allocates, search_lem, Shdr-lt}

module _ (malloc : Malloc) (file : List ℕ) (sections : List ElfShdr) (strings : List ℕ)
    (h : HasSections file sections strings) (sec_name : Text)
    (table_found : Allocates malloc (header_size * length sections))
    (names_found : Allocates malloc h.names.sh_size) where
  -- On an ELF file with its section headers in place, and where memory is found, section_find finds the
  -- first section whose name has `sec_name` in it, at any place: it returns the size of that section, and
  -- the bounds are its address and the address behind it, modulo 2^64.
  pub section_find-first :
      (pre post : List ElfShdr) (s : ElfShdr)
      → sections ≡ pre ++ s ∷ post
      → All (LacksName strings sec_name) pre
      → FindsName strings sec_name s
      → section_find malloc (some file) sec_name
        ≡ returned s.sh_size
            (some (record { sec_start = s.sh_addr; sec_end = (s.sh_addr + s.sh_size) % 2 ^ 64 }))
  unfolding bounds_of extent
  section_find-first pre post s parts lacking found =
      let (table, e, entries) =
        search_lem malloc file sections strings h sec_name table_found names_found in
      let at : get_elem? sections (length pre) ≡ some s =
        ap (λ xs. get_elem? xs (length pre)) parts ∙ get_elem?-append_length pre s post in
      let (addr, size) = Shdr-lt malloc file sections strings h (length pre) s at in
      let whole : ((s.sh_addr + s.sh_size) % 2 ^ 64 + 2 ^ 64 - s.sh_addr) % 2 ^ 64 ≡ s.sh_size =
        omega arith in
      e
      ∙ ap (λ n. match_entries strings table sec_name 0 n) (ap length parts)
      ∙ match_entries-first table strings sec_name 0 pre post s
          (subst (AreEntries table 0) parts entries) lacking found
      ∙ ap (λ n. returned n (some (bounds_of s))) whole

  -- On such a file, section_find returns 0 and sets no bounds if no section's name has `sec_name` in it.
  pub section_find-none :
      All (LacksName strings sec_name) sections
      → section_find malloc (some file) sec_name ≡ returned 0 none
  section_find-none lacking =
      let (table, e, entries) =
        search_lem malloc file sections strings h sec_name table_found names_found in
      e ∙ match_entries-none table strings sec_name 0 sections entries lacking
