-- ===== src/Sections/Examples.antt =====
-- Runs of section_find of c_monitor/sections.c on a file with the sections .rela.plt and .plt, in the order
-- in which linkers put them, and the section of their names.
use fuzz_monitor.Base.{
  ℕ, zero, suc, ◌+◌, ◌/◌, ◌%◌, ◌^◌, ◌≡◌, ◌≢◌, refl, ap, ◌∙◌, false, List, [], ◌∷◌, ◌++◌, All, some,
  none, replicate, get_elem?, le_value, arith,
}
use fuzz_monitor.Text.{Text, codes, contains}
use fuzz_monitor.Text.Search.{contains-append}
use fuzz_monitor.Sections.{field, ElfShdr, shdr_of, Malloc, returned, section_find}
use fuzz_monitor.Sections.Memory.{header_at}
use fuzz_monitor.Sections.Names.{LacksName}
use fuzz_monitor.Sections.Layout.{HasSections}
use fuzz_monitor.Sections.First.{section_find-first, section_find-none}

abbrev le : ℕ → ℕ → List ℕ
le zero n = []
le (suc bytes) n = n % 256 ∷ le bytes (n / 256)

abbrev elf_header : List ℕ
elf_header =
    (127 ∷ codes "ELF")
    ++ (replicate 36 0 ++ (le 8 64 ++ (replicate 10 0 ++ (le 2 64 ++ (le 2 3 ++ le 2 2)))))

abbrev bytes_of : ElfShdr → List ℕ
bytes_of sh =
    le 4 sh.sh_name
    ++ (replicate 12 0
        ++ (le 8 sh.sh_addr ++ (le 8 sh.sh_offset ++ (le 8 sh.sh_size ++ replicate 24 0))))

abbrev rela_plt : ElfShdr
rela_plt = record { sh_name = 1; sh_addr = 1024; sh_offset = 0; sh_size = 48 }

abbrev plt : ElfShdr
plt = record { sh_name = 6; sh_addr = 4096; sh_offset = 0; sh_size = 32 }

abbrev shstrtab : ElfShdr
shstrtab = record { sh_name = 0; sh_addr = 0; sh_offset = 256; sh_size = 11 }

abbrev sections : List ElfShdr
sections = rela_plt ∷ plt ∷ shstrtab ∷ []

abbrev strings : List ℕ
strings = 0 ∷ codes ".rela.plt" ++ 0 ∷ []

abbrev file : List ℕ
file = elf_header ++ (bytes_of rela_plt ++ (bytes_of plt ++ (bytes_of shstrtab ++ strings)))

abbrev malloc : Malloc
malloc size = some (replicate size 0)

headers : (k : ℕ) (sh : ElfShdr) → get_elem? sections k ≡ some sh → sh ≡ header_at file 64 k
unfolding field le_value shdr_of
headers zero sh e = ground arith
headers (suc zero) sh e = ground arith
headers (suc (suc zero)) sh e = ground arith
headers (suc (suc (suc k))) sh e = absurd (cc e)

file-HasSections : HasSections file sections strings
unfolding field le_value shdr_of
file-HasSections = record {
  are_bytes = omega arith;
  header = omega arith;
  magic = refl;
  e_shoff = 64;
  e_shoff_eq = refl;
  e_shentsize = refl;
  e_shnum = refl;
  e_shstrndx = 2;
  e_shstrndx_eq = refl;
  start = omega arith;
  fits = omega arith;
  headers = headers;
  names = shstrtab;
  names_at = refl;
  names_start = omega arith;
  names_fit = omega arith;
  names_size = omega arith;
  strings_eq = refl;
}

-- Asked for .plt, it finds .rela.plt.
section_find-first_example :
    section_find malloc (some file) (codes ".plt")
    ≡ returned 48 (some (record { sec_start = 1024; sec_end = (1024 + 48) % 2 ^ 64 }))
unfolding file-HasSections
section_find-first_example =
    section_find-first malloc file sections strings file-HasSections (codes ".plt")
      (replicate 192 0, refl, refl) (replicate 11 0, refl, refl) [] (plt ∷ shstrtab ∷ []) rela_plt
      refl tt (codes ".rela", [], ([], refl, omega arith))

apart :
    (name : Text)
    → contains name (codes ".text") ≡ false
    → (before after : Text) → name ≢ before ++ (codes ".text" ++ after)
apart name absent before after e =
    cc (
      ap (λ t. contains t (codes ".text")) e ∙ contains-append before (codes ".text") after,
      absent,
    )

lacks_text : All (LacksName strings (codes ".text")) sections
unfolding contains
lacks_text = (
  (codes ".rela.plt", ([], refl, omega arith), apart (codes ".rela.plt") refl),
  (
    (codes ".plt", ([], refl, omega arith), apart (codes ".plt") refl),
    (([], (codes ".rela.plt" ++ 0 ∷ [], refl, tt), apart [] refl), tt),
  ),
)

section_find-none_example : section_find malloc (some file) (codes ".text") ≡ returned 0 none
unfolding file-HasSections
section_find-none_example =
    section_find-none malloc file sections strings file-HasSections (codes ".text")
      (replicate 192 0, refl, refl) (replicate 11 0, refl, refl) lacks_text

no_file : section_find malloc none (codes ".text") ≡ returned 0xffffffffffffffff none
unfolding section_find
no_file = refl
