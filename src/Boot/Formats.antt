-- ===== src/Boot/Formats.antt =====
-- The formats that student-distrib/kernel.c prints, each with its NUL.
use ece391_kernel.Base.{ℕ, List, [], ◌∷◌}

abbrev pub magic_format : List ℕ
magic_format =
    73 ∷ 110 ∷ 118 ∷ 97 ∷ 108 ∷ 105 ∷ 100 ∷ 32 ∷ 109 ∷ 97 ∷ 103 ∷ 105 ∷ 99 ∷ 32 ∷ 110 ∷ 117 ∷ 109
    ∷ 98 ∷ 101 ∷ 114 ∷ 58 ∷ 32 ∷ 48 ∷ 120 ∷ 37 ∷ 35 ∷ 120 ∷ 10 ∷ 0 ∷ []

abbrev pub flags_format : List ℕ
flags_format = 102 ∷ 108 ∷ 97 ∷ 103 ∷ 115 ∷ 32 ∷ 61 ∷ 32 ∷ 48 ∷ 120 ∷ 37 ∷ 35 ∷ 120 ∷ 10 ∷ 0 ∷ []

abbrev pub mem_format : List ℕ
mem_format =
    109 ∷ 101 ∷ 109 ∷ 95 ∷ 108 ∷ 111 ∷ 119 ∷ 101 ∷ 114 ∷ 32 ∷ 61 ∷ 32 ∷ 37 ∷ 117 ∷ 75 ∷ 66 ∷ 44 ∷ 32
    ∷ 109 ∷ 101 ∷ 109 ∷ 95 ∷ 117 ∷ 112 ∷ 112 ∷ 101 ∷ 114 ∷ 32 ∷ 61 ∷ 32 ∷ 37 ∷ 117 ∷ 75 ∷ 66 ∷ 10
    ∷ 0 ∷ []

abbrev pub boot_device_format : List ℕ
boot_device_format =
    98 ∷ 111 ∷ 111 ∷ 116 ∷ 95 ∷ 100 ∷ 101 ∷ 118 ∷ 105 ∷ 99 ∷ 101 ∷ 32 ∷ 61 ∷ 32 ∷ 48 ∷ 120 ∷ 37 ∷ 35
    ∷ 120 ∷ 10 ∷ 0 ∷ []

abbrev pub cmdline_format : List ℕ
cmdline_format = 99 ∷ 109 ∷ 100 ∷ 108 ∷ 105 ∷ 110 ∷ 101 ∷ 32 ∷ 61 ∷ 32 ∷ 37 ∷ 115 ∷ 10 ∷ 0 ∷ []

abbrev pub module_start_format : List ℕ
module_start_format =
    77 ∷ 111 ∷ 100 ∷ 117 ∷ 108 ∷ 101 ∷ 32 ∷ 37 ∷ 100 ∷ 32 ∷ 108 ∷ 111 ∷ 97 ∷ 100 ∷ 101 ∷ 100 ∷ 32
    ∷ 97 ∷ 116 ∷ 32 ∷ 97 ∷ 100 ∷ 100 ∷ 114 ∷ 101 ∷ 115 ∷ 115 ∷ 58 ∷ 32 ∷ 48 ∷ 120 ∷ 37 ∷ 35 ∷ 120
    ∷ 10 ∷ 0 ∷ []

abbrev pub module_end_format : List ℕ
module_end_format =
    77 ∷ 111 ∷ 100 ∷ 117 ∷ 108 ∷ 101 ∷ 32 ∷ 37 ∷ 100 ∷ 32 ∷ 101 ∷ 110 ∷ 100 ∷ 115 ∷ 32 ∷ 97 ∷ 116
    ∷ 32 ∷ 97 ∷ 100 ∷ 100 ∷ 114 ∷ 101 ∷ 115 ∷ 115 ∷ 58 ∷ 32 ∷ 48 ∷ 120 ∷ 37 ∷ 35 ∷ 120 ∷ 10 ∷ 0 ∷ []

abbrev pub first_bytes_format : List ℕ
first_bytes_format =
    70 ∷ 105 ∷ 114 ∷ 115 ∷ 116 ∷ 32 ∷ 102 ∷ 101 ∷ 119 ∷ 32 ∷ 98 ∷ 121 ∷ 116 ∷ 101 ∷ 115 ∷ 32 ∷ 111
    ∷ 102 ∷ 32 ∷ 109 ∷ 111 ∷ 100 ∷ 117 ∷ 108 ∷ 101 ∷ 58 ∷ 10 ∷ 0 ∷ []

abbrev pub byte_format : List ℕ
byte_format = 48 ∷ 120 ∷ 37 ∷ 120 ∷ 32 ∷ 0 ∷ []

abbrev pub newline_format : List ℕ
newline_format = 10 ∷ 0 ∷ []

abbrev pub both_format : List ℕ
both_format =
    66 ∷ 111 ∷ 116 ∷ 104 ∷ 32 ∷ 98 ∷ 105 ∷ 116 ∷ 115 ∷ 32 ∷ 52 ∷ 32 ∷ 97 ∷ 110 ∷ 100 ∷ 32 ∷ 53 ∷ 32
    ∷ 97 ∷ 114 ∷ 101 ∷ 32 ∷ 115 ∷ 101 ∷ 116 ∷ 46 ∷ 10 ∷ 0 ∷ []

abbrev pub elf_format : List ℕ
elf_format =
    101 ∷ 108 ∷ 102 ∷ 95 ∷ 115 ∷ 101 ∷ 99 ∷ 58 ∷ 32 ∷ 110 ∷ 117 ∷ 109 ∷ 32 ∷ 61 ∷ 32 ∷ 37 ∷ 117 ∷ 44
    ∷ 32 ∷ 115 ∷ 105 ∷ 122 ∷ 101 ∷ 32 ∷ 61 ∷ 32 ∷ 48 ∷ 120 ∷ 37 ∷ 35 ∷ 120 ∷ 44 ∷ 32 ∷ 97 ∷ 100
    ∷ 100 ∷ 114 ∷ 32 ∷ 61 ∷ 32 ∷ 48 ∷ 120 ∷ 37 ∷ 35 ∷ 120 ∷ 44 ∷ 32 ∷ 115 ∷ 104 ∷ 110 ∷ 100 ∷ 120
    ∷ 32 ∷ 61 ∷ 32 ∷ 48 ∷ 120 ∷ 37 ∷ 35 ∷ 120 ∷ 10 ∷ 0 ∷ []

abbrev pub mmap_format : List ℕ
mmap_format =
    109 ∷ 109 ∷ 97 ∷ 112 ∷ 95 ∷ 97 ∷ 100 ∷ 100 ∷ 114 ∷ 32 ∷ 61 ∷ 32 ∷ 48 ∷ 120 ∷ 37 ∷ 35 ∷ 120 ∷ 44
    ∷ 32 ∷ 109 ∷ 109 ∷ 97 ∷ 112 ∷ 95 ∷ 108 ∷ 101 ∷ 110 ∷ 103 ∷ 116 ∷ 104 ∷ 32 ∷ 61 ∷ 32 ∷ 48 ∷ 120
    ∷ 37 ∷ 120 ∷ 10 ∷ 0 ∷ []

abbrev pub entry_format : List ℕ
entry_format =
    32 ∷ 32 ∷ 32 ∷ 32 ∷ 115 ∷ 105 ∷ 122 ∷ 101 ∷ 32 ∷ 61 ∷ 32 ∷ 48 ∷ 120 ∷ 37 ∷ 120 ∷ 44 ∷ 32 ∷ 98
    ∷ 97 ∷ 115 ∷ 101 ∷ 95 ∷ 97 ∷ 100 ∷ 100 ∷ 114 ∷ 32 ∷ 61 ∷ 32 ∷ 48 ∷ 120 ∷ 37 ∷ 35 ∷ 120 ∷ 37 ∷ 35
    ∷ 120 ∷ 10 ∷ 32 ∷ 32 ∷ 32 ∷ 32 ∷ 116 ∷ 121 ∷ 112 ∷ 101 ∷ 32 ∷ 61 ∷ 32 ∷ 48 ∷ 120 ∷ 37 ∷ 120 ∷ 44
    ∷ 32 ∷ 32 ∷ 108 ∷ 101 ∷ 110 ∷ 103 ∷ 116 ∷ 104 ∷ 32 ∷ 32 ∷ 32 ∷ 32 ∷ 61 ∷ 32 ∷ 48 ∷ 120 ∷ 37 ∷ 35
    ∷ 120 ∷ 37 ∷ 35 ∷ 120 ∷ 10 ∷ 0 ∷ []

abbrev pub paging_format : List ℕ
paging_format =
    69 ∷ 110 ∷ 97 ∷ 98 ∷ 108 ∷ 105 ∷ 110 ∷ 103 ∷ 32 ∷ 80 ∷ 97 ∷ 103 ∷ 105 ∷ 110 ∷ 103 ∷ 10 ∷ 0 ∷ []
