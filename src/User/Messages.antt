-- ===== src/User/Messages.antt =====
-- The messages of the user programs, each with its NUL.
use ece391_kernel.Base.{ℕ, List, [], ◌∷◌}

abbrev pub shell_start : List ℕ
shell_start =
    83 ∷ 116 ∷ 97 ∷ 114 ∷ 116 ∷ 105 ∷ 110 ∷ 103 ∷ 32 ∷ 51 ∷ 57 ∷ 49 ∷ 32 ∷ 83 ∷ 104 ∷ 101 ∷ 108
    ∷ 108 ∷ 10 ∷ 0 ∷ []

abbrev pub prompt : List ℕ
prompt = 51 ∷ 57 ∷ 49 ∷ 79 ∷ 83 ∷ 62 ∷ 32 ∷ 0 ∷ []

abbrev pub read_failed : List ℕ
read_failed =
    114 ∷ 101 ∷ 97 ∷ 100 ∷ 32 ∷ 102 ∷ 114 ∷ 111 ∷ 109 ∷ 32 ∷ 107 ∷ 101 ∷ 121 ∷ 98 ∷ 111 ∷ 97 ∷ 114
    ∷ 100 ∷ 32 ∷ 102 ∷ 97 ∷ 105 ∷ 108 ∷ 101 ∷ 100 ∷ 10 ∷ 0 ∷ []

abbrev pub no_such_command : List ℕ
no_such_command =
    110 ∷ 111 ∷ 32 ∷ 115 ∷ 117 ∷ 99 ∷ 104 ∷ 32 ∷ 99 ∷ 111 ∷ 109 ∷ 109 ∷ 97 ∷ 110 ∷ 100 ∷ 10 ∷ 0 ∷ []

abbrev pub by_exception : List ℕ
by_exception =
    112 ∷ 114 ∷ 111 ∷ 103 ∷ 114 ∷ 97 ∷ 109 ∷ 32 ∷ 116 ∷ 101 ∷ 114 ∷ 109 ∷ 105 ∷ 110 ∷ 97 ∷ 116 ∷ 101
    ∷ 100 ∷ 32 ∷ 98 ∷ 121 ∷ 32 ∷ 101 ∷ 120 ∷ 99 ∷ 101 ∷ 112 ∷ 116 ∷ 105 ∷ 111 ∷ 110 ∷ 10 ∷ 0 ∷ []

abbrev pub abnormally : List ℕ
abnormally =
    112 ∷ 114 ∷ 111 ∷ 103 ∷ 114 ∷ 97 ∷ 109 ∷ 32 ∷ 116 ∷ 101 ∷ 114 ∷ 109 ∷ 105 ∷ 110 ∷ 97 ∷ 116 ∷ 101
    ∷ 100 ∷ 32 ∷ 97 ∷ 98 ∷ 110 ∷ 111 ∷ 114 ∷ 109 ∷ 97 ∷ 108 ∷ 108 ∷ 121 ∷ 10 ∷ 0 ∷ []

abbrev pub ask_name : List ℕ
ask_name =
    72 ∷ 105 ∷ 44 ∷ 32 ∷ 119 ∷ 104 ∷ 97 ∷ 116 ∷ 39 ∷ 115 ∷ 32 ∷ 121 ∷ 111 ∷ 117 ∷ 114 ∷ 32 ∷ 110
    ∷ 97 ∷ 109 ∷ 101 ∷ 63 ∷ 32 ∷ 0 ∷ []

abbrev pub no_name : List ℕ
no_name =
    67 ∷ 97 ∷ 110 ∷ 39 ∷ 116 ∷ 32 ∷ 114 ∷ 101 ∷ 97 ∷ 100 ∷ 32 ∷ 110 ∷ 97 ∷ 109 ∷ 101 ∷ 32 ∷ 102
    ∷ 114 ∷ 111 ∷ 109 ∷ 32 ∷ 107 ∷ 101 ∷ 121 ∷ 98 ∷ 111 ∷ 97 ∷ 114 ∷ 100 ∷ 46 ∷ 10 ∷ 0 ∷ []

abbrev pub hello : List ℕ
hello = 72 ∷ 101 ∷ 108 ∷ 108 ∷ 111 ∷ 44 ∷ 32 ∷ 0 ∷ []

abbrev pub no_arguments : List ℕ
no_arguments =
    99 ∷ 111 ∷ 117 ∷ 108 ∷ 100 ∷ 32 ∷ 110 ∷ 111 ∷ 116 ∷ 32 ∷ 114 ∷ 101 ∷ 97 ∷ 100 ∷ 32 ∷ 97 ∷ 114
    ∷ 103 ∷ 117 ∷ 109 ∷ 101 ∷ 110 ∷ 116 ∷ 115 ∷ 10 ∷ 0 ∷ []

abbrev pub file_not_found : List ℕ
file_not_found =
    102 ∷ 105 ∷ 108 ∷ 101 ∷ 32 ∷ 110 ∷ 111 ∷ 116 ∷ 32 ∷ 102 ∷ 111 ∷ 117 ∷ 110 ∷ 100 ∷ 10 ∷ 0 ∷ []

abbrev pub file_read_failed : List ℕ
file_read_failed =
    102 ∷ 105 ∷ 108 ∷ 101 ∷ 32 ∷ 114 ∷ 101 ∷ 97 ∷ 100 ∷ 32 ∷ 102 ∷ 97 ∷ 105 ∷ 108 ∷ 101 ∷ 100 ∷ 10
    ∷ 0 ∷ []

abbrev pub directory_open_failed : List ℕ
directory_open_failed =
    100 ∷ 105 ∷ 114 ∷ 101 ∷ 99 ∷ 116 ∷ 111 ∷ 114 ∷ 121 ∷ 32 ∷ 111 ∷ 112 ∷ 101 ∷ 110 ∷ 32 ∷ 102 ∷ 97
    ∷ 105 ∷ 108 ∷ 101 ∷ 100 ∷ 10 ∷ 0 ∷ []

abbrev pub entry_read_failed : List ℕ
entry_read_failed =
    100 ∷ 105 ∷ 114 ∷ 101 ∷ 99 ∷ 116 ∷ 111 ∷ 114 ∷ 121 ∷ 32 ∷ 101 ∷ 110 ∷ 116 ∷ 114 ∷ 121 ∷ 32 ∷ 114
    ∷ 101 ∷ 97 ∷ 100 ∷ 32 ∷ 102 ∷ 97 ∷ 105 ∷ 108 ∷ 101 ∷ 100 ∷ 10 ∷ 0 ∷ []

abbrev pub file_open_failed : List ℕ
file_open_failed =
    102 ∷ 105 ∷ 108 ∷ 101 ∷ 32 ∷ 111 ∷ 112 ∷ 101 ∷ 110 ∷ 32 ∷ 102 ∷ 97 ∷ 105 ∷ 108 ∷ 101 ∷ 100 ∷ 10
    ∷ 0 ∷ []

abbrev pub file_close_failed : List ℕ
file_close_failed =
    102 ∷ 105 ∷ 108 ∷ 101 ∷ 32 ∷ 99 ∷ 108 ∷ 111 ∷ 115 ∷ 101 ∷ 32 ∷ 102 ∷ 97 ∷ 105 ∷ 108 ∷ 101 ∷ 100
    ∷ 10 ∷ 0 ∷ []

abbrev pub no_argument : List ℕ
no_argument =
    99 ∷ 111 ∷ 117 ∷ 108 ∷ 100 ∷ 32 ∷ 110 ∷ 111 ∷ 116 ∷ 32 ∷ 114 ∷ 101 ∷ 97 ∷ 100 ∷ 32 ∷ 97 ∷ 114
    ∷ 103 ∷ 117 ∷ 109 ∷ 101 ∷ 110 ∷ 116 ∷ 10 ∷ 0 ∷ []

abbrev pub directory_read_failed : List ℕ
directory_read_failed =
    100 ∷ 105 ∷ 114 ∷ 101 ∷ 99 ∷ 116 ∷ 111 ∷ 114 ∷ 121 ∷ 32 ∷ 101 ∷ 110 ∷ 116 ∷ 114 ∷ 121 ∷ 32 ∷ 114
    ∷ 101 ∷ 97 ∷ 100 ∷ 32 ∷ 102 ∷ 97 ∷ 105 ∷ 108 ∷ 101 ∷ 100 ∷ 10 ∷ 0 ∷ []

abbrev pub ask_number : List ℕ
ask_number =
    69 ∷ 110 ∷ 116 ∷ 101 ∷ 114 ∷ 32 ∷ 116 ∷ 104 ∷ 101 ∷ 32 ∷ 84 ∷ 101 ∷ 115 ∷ 116 ∷ 32 ∷ 78 ∷ 117
    ∷ 109 ∷ 98 ∷ 101 ∷ 114 ∷ 58 ∷ 32 ∷ 40 ∷ 48 ∷ 41 ∷ 58 ∷ 32 ∷ 49 ∷ 48 ∷ 48 ∷ 44 ∷ 32 ∷ 40 ∷ 49
    ∷ 41 ∷ 58 ∷ 32 ∷ 49 ∷ 48 ∷ 48 ∷ 48 ∷ 48 ∷ 44 ∷ 32 ∷ 40 ∷ 50 ∷ 41 ∷ 58 ∷ 32 ∷ 49 ∷ 48 ∷ 48 ∷ 48
    ∷ 48 ∷ 48 ∷ 10 ∷ 0 ∷ []

abbrev pub no_number : List ℕ
no_number =
    67 ∷ 97 ∷ 110 ∷ 39 ∷ 116 ∷ 32 ∷ 114 ∷ 101 ∷ 97 ∷ 100 ∷ 32 ∷ 116 ∷ 104 ∷ 101 ∷ 32 ∷ 110 ∷ 117
    ∷ 109 ∷ 98 ∷ 101 ∷ 114 ∷ 32 ∷ 102 ∷ 114 ∷ 111 ∷ 109 ∷ 32 ∷ 107 ∷ 101 ∷ 121 ∷ 98 ∷ 111 ∷ 97 ∷ 114
    ∷ 100 ∷ 46 ∷ 10 ∷ 0 ∷ []

abbrev pub wrong_number : List ℕ
wrong_number = 87 ∷ 114 ∷ 111 ∷ 110 ∷ 103 ∷ 32 ∷ 67 ∷ 104 ∷ 111 ∷ 105 ∷ 99 ∷ 101 ∷ 33 ∷ 10 ∷ 0 ∷ []

abbrev pub it_ran : List ℕ
it_ran =
    72 ∷ 101 ∷ 108 ∷ 108 ∷ 111 ∷ 44 ∷ 32 ∷ 105 ∷ 102 ∷ 32 ∷ 116 ∷ 104 ∷ 105 ∷ 115 ∷ 32 ∷ 114 ∷ 97
    ∷ 110 ∷ 44 ∷ 32 ∷ 116 ∷ 104 ∷ 101 ∷ 32 ∷ 112 ∷ 114 ∷ 111 ∷ 103 ∷ 114 ∷ 97 ∷ 109 ∷ 32 ∷ 119 ∷ 97
    ∷ 115 ∷ 32 ∷ 99 ∷ 111 ∷ 114 ∷ 114 ∷ 101 ∷ 99 ∷ 116 ∷ 46 ∷ 32 ∷ 89 ∷ 97 ∷ 121 ∷ 33 ∷ 10 ∷ 0 ∷ []

abbrev pub rtc_name : List ℕ
rtc_name = 114 ∷ 116 ∷ 99 ∷ 0 ∷ []
