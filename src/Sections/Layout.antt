-- ===== src/Sections/Layout.antt =====
-- c_monitor/sections.c: section_find reads the section headers and their names where they stand in the file.
use fuzz_monitor.Base.{
  ℕ, ◌+◌, ◌*◌, ◌^◌, ◌≤◌, ◌<◌, ◌≡◌, refl, sym, ap, ap₂, ◌∙◌, true, List, [], ◌∷◌, some, length, take,
  drop, get_elem?, length-take, take-drop-take, lt-length_of_get_elem?, IsBytes, IsBytes-take,
  IsBytes-drop, le_value, le_value-lt, ltb, arith,
}
use fuzz_monitor.Text.{Text, codes}
use fuzz_monitor.Text.Decimal.{text_eq_iff}
use fuzz_monitor.Sections.{
  field, ElfEhdr, ehdr_of, ElfShdr, shdr_of, header_size, read_max, read_elf_header, is_elf,
  read_section_header_table, Malloc, section, read_section, match_entries, search_sections,
  section_find, entry_at, seek,
}
use fuzz_monitor.Sections.Memory.{
  read_exactly_lem, seek_lem, read_entries_lem, header_at, entry_at_lem,
}
use fuzz_monitor.Sections.Names.{AreEntries}

-- A file with its section headers in place: it is an ELF file, the size of an entry is that of an
-- Elf64_Shdr, the headers lie in the file, and so does the section of the names.
pub record HasSections (file : List ℕ) (sections : List ElfShdr) (strings : List ℕ) : Type 0 where
  pub are_bytes : IsBytes file
  pub header : header_size ≤ length file
  pub magic : take 4 file ≡ 127 ∷ codes "ELF"
  pub e_shoff : ℕ
  pub e_shoff_eq : field file 40 8 ≡ e_shoff
  pub e_shentsize : field file 58 2 ≡ header_size
  pub e_shnum : field file 60 2 ≡ length sections
  pub e_shstrndx : ℕ
  pub e_shstrndx_eq : field file 62 2 ≡ e_shstrndx
  pub start : e_shoff < 2 ^ 63
  pub fits : e_shoff + header_size * length sections ≤ length file
  pub headers :
      (k : ℕ) (sh : ElfShdr) → get_elem? sections k ≡ some sh → sh ≡ header_at file e_shoff k
  pub names : ElfShdr
  pub names_at : get_elem? sections e_shstrndx ≡ some names
  pub names_start : names.sh_offset < 2 ^ 63
  pub names_fit : names.sh_offset + names.sh_size ≤ length file
  pub names_size : names.sh_size ≤ read_max
  pub strings_eq : take names.sh_size (drop names.sh_offset file) ≡ strings

-- Memory of a size is found, with whatever it holds.
abbrev pub Allocates : Malloc → ℕ → Type 0
Allocates malloc size = (block : List ℕ) × (malloc size ≡ some block) × (length block ≡ size)

field-take :
    (file : List ℕ) (offset n : ℕ)
    → offset + n ≤ header_size
    → field (take header_size file) offset n ≡ field file offset n
unfolding field
field-take file offset n inside = ap le_value (take-drop-take n offset header_size file inside)

field-lt : (file : List ℕ) (offset n : ℕ) → IsBytes file → field file offset n < 256 ^ n
unfolding field
field-lt file offset n h =
    le_value-lt (take n (drop offset file)) n
      (IsBytes-take n (drop offset file) (IsBytes-drop offset file h))
      (omega (arith, length-take n (drop offset file)))

zero_lem : (k : ℕ) → k ≡ 0 + k
zero_lem k = omega arith

module _ (malloc : Malloc) (file : List ℕ) (sections : List ElfShdr) (strings : List ℕ)
    (h : HasSections file sections strings) where
  eh : ElfEhdr
  eh = ehdr_of (take header_size file)

  header_lem : read_elf_header file ≡ some eh
  unfolding read_elf_header eh
  header_lem =
      rw
        (
          seek_lem 0 0 (omega arith),
          read_elf_header,
          read_exactly_lem file 0 header_size (omega (arith, h.header)) (omega arith),
        )
        refl

  is_elf_lem : is_elf eh ≡ true
  unfolding is_elf eh ehdr_of
  is_elf_lem =
      let same : take 4 (take 16 (take header_size file)) ≡ 127 ∷ codes "ELF" =
        take-drop-take 4 0 16 (take header_size file) (omega arith)
        ∙ take-drop-take 4 0 header_size file (omega arith)
        ∙ h.magic in
      (text_eq_iff (take 4 (take 16 (take header_size file))) (127 ∷ codes "ELF")).1 same

  shoff_lem : eh.e_shoff ≡ h.e_shoff
  unfolding eh ehdr_of
  shoff_lem = field-take file 40 8 (omega arith) ∙ h.e_shoff_eq

  shentsize_lem : eh.e_shentsize ≡ header_size
  unfolding eh ehdr_of
  shentsize_lem = field-take file 58 2 (omega arith) ∙ h.e_shentsize

  shnum_lem : eh.e_shnum ≡ length sections
  unfolding eh ehdr_of
  shnum_lem = field-take file 60 2 (omega arith) ∙ h.e_shnum

  shstrndx_lem : eh.e_shstrndx ≡ h.e_shstrndx
  unfolding eh ehdr_of
  shstrndx_lem = field-take file 62 2 (omega arith) ∙ h.e_shstrndx_eq

  file_table : List ℕ
  file_table = take (header_size * length sections) (drop h.e_shoff file)

  table_lem :
      (pos : ℕ) (block : List ℕ)
      → length block ≡ header_size * length sections
      → read_section_header_table file pos eh block
        ≡ some (file_table, h.e_shoff + header_size * length sections)
  unfolding read_section_header_table file_table
  table_lem pos block size =
      let seeks : seek pos eh.e_shoff ≡ some h.e_shoff =
        seek_lem pos eh.e_shoff (omega (arith, shoff_lem, h.start)) ∙ ap some shoff_lem in
      let product = ap₂ (λ a b. a * b) shentsize_lem shnum_lem in
      let loop =
        read_entries_lem file eh.e_shentsize h.e_shoff 0 eh.e_shnum [] block shentsize_lem
          (omega arith) (size ∙ sym product) (omega (arith, product, h.fits)) in
      rw (seeks, read_section_header_table)
        (loop ∙ ap (λ n. some (take n (drop h.e_shoff file), h.e_shoff + n)) product)

  entries_lem : AreEntries file_table 0 sections
  unfolding file_table
  entries_lem k sh at =
      let inside = lt-length_of_get_elem? sections k at in
      let place : 0 + k ≡ k = omega arith in
      ap (entry_at (take (header_size * length sections) (drop h.e_shoff file))) place
      ∙ entry_at_lem file h.e_shoff (length sections) k inside h.fits
      ∙ ap some (sym (h.headers k sh at))

  names_lem :
      (pos : ℕ)
      → Allocates malloc h.names.sh_size
      → read_section malloc file pos h.names ≡ section strings
  unfolding read_section
  names_lem pos (block, found, size) =
      rw
        (
          found,
          read_section,
          seek_lem pos h.names.sh_offset h.names_start,
          read_exactly_lem file h.names.sh_offset h.names.sh_size h.names_fit h.names_size,
        )
        (ap section h.strings_eq)

  pub search_lem :
      (sec_name : Text)
      → Allocates malloc (header_size * length sections)
      → Allocates malloc h.names.sh_size
      → (table : List ℕ) × (section_find malloc (some file) sec_name
          ≡ match_entries strings table sec_name 0 (length sections))
        × AreEntries table 0 sections
  unfolding section_find search_sections
  search_lem sec_name (block, found, size) names_found =
      let product = ap₂ (λ a b. a * b) shentsize_lem shnum_lem in
      let few : length sections < 65536 =
        omega (arith, h.e_shnum, field-lt file 60 2 h.are_bytes) in
      let fits : ltb (eh.e_shentsize * eh.e_shnum) (2 ^ 31) ≡ true = ground (arith, product) in
      let allocated : malloc (eh.e_shentsize * eh.e_shnum) ≡ some block =
        ap malloc product ∙ found in
      let place = h.e_shoff + header_size * length sections in
      let names_entry : entry_at file_table eh.e_shstrndx ≡ some h.names =
        ap (entry_at file_table) (shstrndx_lem ∙ zero_lem h.e_shstrndx)
        ∙ entries_lem h.e_shstrndx h.names h.names_at in
      (
        file_table,
        rw
            (
              header_lem,
              section_find,
              is_elf_lem,
              search_sections,
              fits,
              allocated,
              table_lem header_size block size,
              names_entry,
              names_lem place names_found,
            )
            (ap (match_entries strings file_table sec_name 0) shnum_lem),
        entries_lem,
      )

  -- A section's address and size fit 64 bits.
  pub Shdr-lt :
      (k : ℕ) (sh : ElfShdr)
      → get_elem? sections k ≡ some sh
      → (sh.sh_addr < 2 ^ 64) × (sh.sh_size < 2 ^ 64)
  unfolding shdr_of
  Shdr-lt k sh at =
      let bytes = take header_size (drop (h.e_shoff + header_size * k) file) in
      let are_bytes : IsBytes bytes =
        IsBytes-take header_size (drop (h.e_shoff + header_size * k) file)
          (IsBytes-drop (h.e_shoff + header_size * k) file h.are_bytes) in
      (
        omega (
          arith,
          ap (λ (s : ElfShdr). s.sh_addr) (h.headers k sh at),
          field-lt bytes 16 8 are_bytes,
        ),
        omega (
          arith,
          ap (λ (s : ElfShdr). s.sh_size) (h.headers k sh at),
          field-lt bytes 32 8 are_bytes,
        ),
      )
