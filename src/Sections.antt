-- ===== src/Sections.antt =====
-- c_monitor/sections.c and sections.h: where a section of the program under test lies. A file is the list of
-- its bytes, for an x86-64 build of the monitor: `Elf64_Ehdr` and `Elf64_Shdr`, of 64 bytes each. `none` is
-- a failed assertion or an access beyond a block. What is logged, `close` and `free` are left out.
pub mod Memory
pub mod Names
pub mod Layout
pub mod First
pub mod Examples
use fuzz_monitor.Base.{
  ℕ, zero, suc, ◌+◌, ◌-◌, ◌*◌, ◌%◌, ◌^◌, Bool, true, false, ◌&&◌, not, List, [], ◌∷◌, ◌++◌, Option,
  none, some, length, take, drop, le_value, ltb, leb, ◌==◌, if◌then◌else◌,
}
use fuzz_monitor.Text.{Text, codes, text_eq, contains}

pub record SectionBounds : Type 0 where
  pub sec_start : ℕ
  pub sec_end : ℕ

-- The number of `n` bytes at an offset.
unfoldable pub field : List ℕ → ℕ → ℕ → ℕ
field bytes offset n = le_value (take n (drop offset bytes))

-- What the code reads of an `Elf64_Ehdr`.
pub record ElfEhdr : Type 0 where
  pub e_ident : List ℕ
  pub e_shoff : ℕ
  pub e_shentsize : ℕ
  pub e_shnum : ℕ
  pub e_shstrndx : ℕ

unfoldable pub ehdr_of : List ℕ → ElfEhdr
ehdr_of bytes = record {
  e_ident = take 16 bytes;
  e_shoff = field bytes 40 8;
  e_shentsize = field bytes 58 2;
  e_shnum = field bytes 60 2;
  e_shstrndx = field bytes 62 2;
}

-- What the code reads of an `Elf64_Shdr`.
pub record ElfShdr : Type 0 where
  pub sh_name : ℕ
  pub sh_addr : ℕ
  pub sh_offset : ℕ
  pub sh_size : ℕ

unfoldable pub shdr_of : List ℕ → ElfShdr
shdr_of bytes = record {
  sh_name = field bytes 0 4;
  sh_addr = field bytes 16 8;
  sh_offset = field bytes 24 8;
  sh_size = field bytes 32 8;
}

abbrev pub header_size : ℕ
header_size = 64

-- The most bytes that one `read` transfers.
abbrev pub read_max : ℕ
read_max = 0x7ffff000

-- `assert(lseek(fd, offset, SEEK_SET) == offset)`: a negative offset is refused with -1, which is equal to
-- an offset of 2^64 - 1.
unfoldable pub seek : ℕ → ℕ → Option ℕ
seek pos offset =
    if ltb offset (2 ^ 63) then some offset else if offset == 2 ^ 64 - 1 then some pos else none

-- `assert(read(fd, …, n) == n)`: the bytes at the position.
unfoldable pub read_exactly : List ℕ → ℕ → ℕ → Option (List ℕ)
read_exactly file pos n =
    let bytes = take n (drop pos file) in
    if length bytes == n && leb n read_max then some bytes else none

unfoldable pub read_elf_header : List ℕ → Option ElfEhdr
read_elf_header file = elim (seek 0 0) [
  | none ↦ none
  | some pos ↦ elim (read_exactly file pos header_size) [
    | none ↦ none
    | some bytes ↦ some (ehdr_of bytes)
  ]
]

unfoldable pub is_elf : ElfEhdr → Bool
is_elf eh = text_eq (take 4 eh.e_ident) (127 ∷ codes "ELF")

-- A write into a block of memory.
unfoldable pub write_bytes : List ℕ → ℕ → List ℕ → Option (List ℕ)
write_bytes block start bytes =
    if leb (start + length bytes) (length block)
    then some (take start block ++ (bytes ++ drop (start + length bytes) block))
    else none

-- The rounds of the loop that are left: entry `i` is written at `&sh_table[i]`, whatever the size of an
-- entry in the file. At the end come the table and the position in the file.
unfoldable pub read_entries : List ℕ → ℕ → List ℕ → ℕ → ℕ → ℕ → Option (List ℕ × ℕ)
read_entries file e_shentsize sh_table pos i zero = some (sh_table, pos)
read_entries file e_shentsize sh_table pos i (suc left) = elim (read_exactly file pos e_shentsize) [
  | none ↦ none
  | some bytes ↦ elim (write_bytes sh_table (header_size * i) bytes) [
    | none ↦ none
    | some sh_table' ↦ read_entries file e_shentsize sh_table' (pos + e_shentsize) (i + 1) left
  ]
]

unfoldable pub read_section_header_table : List ℕ → ℕ → ElfEhdr → List ℕ → Option (List ℕ × ℕ)
read_section_header_table file pos eh sh_table = elim (seek pos eh.e_shoff) [
  | none ↦ none
  | some pos' ↦ read_entries file eh.e_shentsize sh_table pos' 0 eh.e_shnum
]

-- `sh_table[k]`
unfoldable pub entry_at : List ℕ → ℕ → Option ElfShdr
entry_at sh_table k =
    if leb (header_size * k + header_size) (length sh_table)
    then some (shdr_of (take header_size (drop (header_size * k) sh_table)))
    else none

-- What `malloc` answers for a size: NULL, or a block with what it happens to hold.
abbrev pub Malloc : Type 0
Malloc = ℕ → Option (List ℕ)

-- NULL, or the bytes of the section.
pub data Section : Type 0 where
  null_section failed : Section
  section : List ℕ → Section

unfoldable pub read_section : Malloc → List ℕ → ℕ → ElfShdr → Section
read_section malloc file pos sh = elim (malloc sh.sh_size) [
  | none ↦ null_section
  | some buff ↦ elim (seek pos sh.sh_offset) [
    | none ↦ failed
    | some pos' ↦ elim (read_exactly file pos' sh.sh_size) [
      | none ↦ failed
      | some bytes ↦ section bytes
    ]
  ]
]

-- The bytes up to the first 0, if there is one.
unfoldable pub c_string : List ℕ → Option Text
c_string [] = none
c_string (c ∷ bytes) = elim (c_string bytes) [
  | none ↦ if c == 0 then some [] else none
  | some text ↦ if c == 0 then some [] else some (c ∷ text)
]

-- The result is the bit pattern of an `int64_t`; with it come the bounds where they are set.
pub data Found : Type 0 where
  returned : ℕ → Option SectionBounds → Found
  crashed : Found

abbrev pub minus_one : ℕ
minus_one = 2 ^ 64 - 1

unfoldable pub bounds_of : ElfShdr → SectionBounds
bounds_of sh = record { sec_start = sh.sh_addr; sec_end = (sh.sh_addr + sh.sh_size) % 2 ^ 64 }

-- `bounds->sec_end - bounds->sec_start`
unfoldable pub extent : SectionBounds → ℕ
extent b = (b.sec_end + 2 ^ 64 - b.sec_start) % 2 ^ 64

-- The rounds of the loop over the sections that are left.
unfoldable pub match_entries : List ℕ → List ℕ → Text → ℕ → ℕ → Found
match_entries sh_str sh_tbl sec_name i zero = returned 0 none
match_entries sh_str sh_tbl sec_name i (suc left) =
    let rest = match_entries sh_str sh_tbl sec_name (i + 1) left in
    elim (entry_at sh_tbl i) [
      | none ↦ crashed
      | some sh ↦ elim (c_string (drop sh.sh_name sh_str)) [
        | none ↦ crashed
        | some sh_name ↦
            if contains sh_name sec_name
            then returned (extent (bounds_of sh)) (some (bounds_of sh))
            else rest
      ]
    ]

-- From the allocation of the table on; its size is computed as an `int`.
unfoldable pub search_sections : Malloc → List ℕ → ElfEhdr → Text → Found
search_sections malloc file eh sec_name =
    let size = eh.e_shentsize * eh.e_shnum in
    if ltb size (2 ^ 31)
    then elim (malloc size) [
      | none ↦ returned minus_one none
      | some block ↦ elim (read_section_header_table file header_size eh block) [
        | none ↦ crashed
        | some (sh_tbl, pos) ↦ elim (entry_at sh_tbl eh.e_shstrndx) [
          | none ↦ crashed
          | some sh ↦ elim (read_section malloc file pos sh) [
            | null_section ↦ returned minus_one none
            | failed ↦ crashed
            | section sh_str ↦ match_entries sh_str sh_tbl sec_name 0 eh.e_shnum
          ]
        ]
      ]
    ]
    else crashed

-- The file, if it can be opened.
unfoldable pub section_find : Malloc → Option (List ℕ) → Text → Found
section_find malloc opened sec_name = elim opened [
  | none ↦ returned minus_one none
  | some file ↦ elim (read_elf_header file) [
    | none ↦ crashed
    | some eh ↦
        if is_elf eh then search_sections malloc file eh sec_name else returned minus_one none
  ]
]
