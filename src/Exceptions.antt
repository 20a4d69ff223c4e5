-- ===== src/Exceptions.antt =====
-- student-distrib/exceptions.c: the messages of the 32 exceptions and their handler.
pub mod Raised
use ece391_kernel.Base.{
  ℕ, ◌==◌, true, false, if◌then◌else◌, List, [], ◌∷◌, Option, none, some, get_or,
}
use ece391_kernel.State.{Kernel, Console}
use ece391_kernel.Console.{clear}
use ece391_kernel.Console.Printf.{printf}
use ece391_kernel.SysCall.Programs.{Transfer, Locals, halt}

abbrev pub page_fault : ℕ
page_fault = 14

-- Each message ends with its NUL.
abbrev reserved : List ℕ
reserved = 82 ∷ 101 ∷ 115 ∷ 101 ∷ 114 ∷ 118 ∷ 101 ∷ 100 ∷ 0 ∷ []

abbrev pub exp_msg : List (List ℕ)
exp_msg =
    (68 ∷ 105 ∷ 118 ∷ 105 ∷ 100 ∷ 101 ∷ 45 ∷ 98 ∷ 121 ∷ 45 ∷ 122 ∷ 101 ∷ 114 ∷ 111 ∷ 32 ∷ 69 ∷ 114
      ∷ 114 ∷ 111 ∷ 114 ∷ 0 ∷ [])
    ∷ (68 ∷ 101 ∷ 98 ∷ 117 ∷ 103 ∷ 0 ∷ [])
    ∷ (78 ∷ 111 ∷ 110 ∷ 45 ∷ 109 ∷ 97 ∷ 115 ∷ 107 ∷ 97 ∷ 98 ∷ 108 ∷ 101 ∷ 32 ∷ 105 ∷ 110 ∷ 116 ∷ 101
        ∷ 114 ∷ 114 ∷ 117 ∷ 112 ∷ 116 ∷ 0 ∷ [])
    ∷ (66 ∷ 114 ∷ 101 ∷ 97 ∷ 107 ∷ 112 ∷ 111 ∷ 105 ∷ 110 ∷ 116 ∷ 0 ∷ [])
    ∷ (79 ∷ 118 ∷ 101 ∷ 114 ∷ 102 ∷ 108 ∷ 111 ∷ 119 ∷ 0 ∷ [])
    ∷ (66 ∷ 111 ∷ 117 ∷ 110 ∷ 100 ∷ 32 ∷ 82 ∷ 97 ∷ 110 ∷ 103 ∷ 101 ∷ 32 ∷ 69 ∷ 120 ∷ 99 ∷ 101 ∷ 101
        ∷ 100 ∷ 101 ∷ 100 ∷ 0 ∷ [])
    ∷ (73 ∷ 110 ∷ 118 ∷ 97 ∷ 108 ∷ 105 ∷ 100 ∷ 32 ∷ 79 ∷ 112 ∷ 99 ∷ 111 ∷ 100 ∷ 101 ∷ 0 ∷ [])
    ∷ (68 ∷ 101 ∷ 118 ∷ 105 ∷ 99 ∷ 101 ∷ 32 ∷ 78 ∷ 111 ∷ 116 ∷ 32 ∷ 65 ∷ 118 ∷ 97 ∷ 105 ∷ 108 ∷ 97
        ∷ 98 ∷ 108 ∷ 101 ∷ 0 ∷ [])
    ∷ (68 ∷ 111 ∷ 117 ∷ 98 ∷ 108 ∷ 101 ∷ 32 ∷ 70 ∷ 97 ∷ 117 ∷ 108 ∷ 116 ∷ 0 ∷ [])
    ∷ (67 ∷ 111 ∷ 112 ∷ 114 ∷ 111 ∷ 99 ∷ 101 ∷ 115 ∷ 115 ∷ 111 ∷ 114 ∷ 32 ∷ 83 ∷ 101 ∷ 103 ∷ 109
        ∷ 101 ∷ 110 ∷ 116 ∷ 32 ∷ 79 ∷ 118 ∷ 101 ∷ 114 ∷ 114 ∷ 117 ∷ 110 ∷ 0 ∷ [])
    ∷ (73 ∷ 110 ∷ 118 ∷ 97 ∷ 108 ∷ 105 ∷ 100 ∷ 32 ∷ 84 ∷ 83 ∷ 83 ∷ 0 ∷ [])
    ∷ (83 ∷ 101 ∷ 103 ∷ 109 ∷ 101 ∷ 110 ∷ 116 ∷ 32 ∷ 78 ∷ 111 ∷ 116 ∷ 32 ∷ 80 ∷ 114 ∷ 101 ∷ 115
        ∷ 101 ∷ 110 ∷ 116 ∷ 0 ∷ [])
    ∷ (83 ∷ 116 ∷ 97 ∷ 99 ∷ 107 ∷ 32 ∷ 83 ∷ 101 ∷ 103 ∷ 109 ∷ 101 ∷ 110 ∷ 116 ∷ 32 ∷ 70 ∷ 97 ∷ 117
        ∷ 108 ∷ 116 ∷ 0 ∷ [])
    ∷ (71 ∷ 101 ∷ 110 ∷ 101 ∷ 114 ∷ 97 ∷ 108 ∷ 32 ∷ 80 ∷ 114 ∷ 111 ∷ 116 ∷ 101 ∷ 99 ∷ 116 ∷ 105
        ∷ 111 ∷ 110 ∷ 32 ∷ 70 ∷ 97 ∷ 117 ∷ 108 ∷ 116 ∷ 0 ∷ [])
    ∷ (80 ∷ 97 ∷ 103 ∷ 101 ∷ 32 ∷ 70 ∷ 97 ∷ 117 ∷ 108 ∷ 116 ∷ 0 ∷ [])
    ∷ (65 ∷ 115 ∷ 115 ∷ 101 ∷ 114 ∷ 116 ∷ 105 ∷ 111 ∷ 110 ∷ 32 ∷ 70 ∷ 97 ∷ 105 ∷ 108 ∷ 117 ∷ 114
        ∷ 101 ∷ 0 ∷ [])
    ∷ (120 ∷ 56 ∷ 55 ∷ 32 ∷ 70 ∷ 108 ∷ 111 ∷ 97 ∷ 116 ∷ 105 ∷ 110 ∷ 103 ∷ 45 ∷ 80 ∷ 111 ∷ 105 ∷ 110
        ∷ 116 ∷ 32 ∷ 69 ∷ 120 ∷ 99 ∷ 101 ∷ 112 ∷ 116 ∷ 105 ∷ 111 ∷ 110 ∷ 0 ∷ [])
    ∷ (65 ∷ 108 ∷ 105 ∷ 103 ∷ 110 ∷ 109 ∷ 101 ∷ 110 ∷ 116 ∷ 32 ∷ 67 ∷ 104 ∷ 101 ∷ 99 ∷ 107 ∷ 0 ∷ [])
    ∷ (77 ∷ 97 ∷ 99 ∷ 104 ∷ 105 ∷ 110 ∷ 101 ∷ 32 ∷ 67 ∷ 104 ∷ 101 ∷ 99 ∷ 107 ∷ 0 ∷ [])
    ∷ (83 ∷ 73 ∷ 77 ∷ 68 ∷ 32 ∷ 70 ∷ 108 ∷ 111 ∷ 97 ∷ 116 ∷ 105 ∷ 110 ∷ 103 ∷ 45 ∷ 80 ∷ 111 ∷ 105
        ∷ 110 ∷ 116 ∷ 32 ∷ 69 ∷ 120 ∷ 99 ∷ 101 ∷ 112 ∷ 116 ∷ 105 ∷ 111 ∷ 110 ∷ 0 ∷ [])
    ∷ (86 ∷ 105 ∷ 114 ∷ 116 ∷ 117 ∷ 97 ∷ 108 ∷ 105 ∷ 122 ∷ 97 ∷ 116 ∷ 105 ∷ 111 ∷ 110 ∷ 32 ∷ 69
        ∷ 120 ∷ 99 ∷ 101 ∷ 112 ∷ 116 ∷ 105 ∷ 111 ∷ 110 ∷ 0 ∷ [])
    ∷ reserved
    ∷ reserved
    ∷ reserved
    ∷ reserved
    ∷ reserved
    ∷ reserved
    ∷ reserved
    ∷ reserved
    ∷ reserved
    ∷ (83 ∷ 101 ∷ 99 ∷ 117 ∷ 114 ∷ 105 ∷ 116 ∷ 121 ∷ 32 ∷ 69 ∷ 120 ∷ 99 ∷ 101 ∷ 112 ∷ 116 ∷ 105
        ∷ 111 ∷ 110 ∷ 0 ∷ [])
    ∷ reserved
    ∷ []

-- The four formats.
abbrev pub occurred_format : List ℕ
occurred_format =
    65 ∷ 110 ∷ 32 ∷ 101 ∷ 120 ∷ 99 ∷ 101 ∷ 112 ∷ 116 ∷ 105 ∷ 111 ∷ 110 ∷ 32 ∷ 104 ∷ 97 ∷ 115 ∷ 32
    ∷ 111 ∷ 99 ∷ 99 ∷ 117 ∷ 114 ∷ 114 ∷ 101 ∷ 100 ∷ 58 ∷ 10 ∷ 0 ∷ []

abbrev pub message_format : List ℕ
message_format = 37 ∷ 115 ∷ 10 ∷ 0 ∷ []

abbrev pub page_fault_format : List ℕ
page_fault_format =
    80 ∷ 97 ∷ 103 ∷ 101 ∷ 32 ∷ 102 ∷ 97 ∷ 117 ∷ 108 ∷ 116 ∷ 32 ∷ 111 ∷ 99 ∷ 99 ∷ 117 ∷ 114 ∷ 32 ∷ 97
    ∷ 116 ∷ 32 ∷ 37 ∷ 35 ∷ 120 ∷ 10 ∷ 0 ∷ []

abbrev pub word_format : List ℕ
word_format = 37 ∷ 120 ∷ 10 ∷ 0 ∷ []

-- The values that a report prints: what CR2 and the task's stack fields hold.
pub record Registers : Type 0 where
  pub cr2 : ℕ
  pub ss0 : ℕ
  pub esp0 : ℕ

-- `printf` with arguments; a pointer to a message is the message's number.
abbrev pub print : (stack : ℕ → ℕ) → (format words : List ℕ) → Console → Console
print stack format words k = (printf (λ p. get_or exp_msg p []) stack format words k).1

-- What `exception_handler` prints.
unfoldable pub report : (stack : ℕ → ℕ) → Registers → (exp_id : ℕ) → Console → Console
report stack registers exp_id k =
    let k1 = print stack occurred_format [] (clear k) in
    let k2 = print stack message_format (exp_id ∷ []) k1 in
    let k3 =
      if exp_id == page_fault then print stack page_fault_format (registers.cr2 ∷ []) k2 else k2 in
    if exp_id == 0x0d
    then print stack word_format (registers.esp0 ∷ [])
        (print stack word_format (registers.ss0 ∷ []) k3)
    else k3

-- `none` is the endless loop at the end, which is reached when no program runs. `halt` does not return.
unfoldable pub exception_handler :
    (stack : ℕ → ℕ) → (cr2 ss0 : ℕ) → (ebp : ℕ) → Locals → (exp_id : ℕ) → Kernel → Option Transfer
unfolding report
exception_handler stack cr2 ss0 ebp locals exp_id k =
    let registers : Registers = record { cr2 = cr2; ss0 = ss0; esp0 = k.tss_esp0 } in
    let k' = record k { console = report stack registers exp_id k.console } in
    if k.prog_counter == 0
    then none
    else some (halt ebp locals 0 (record k' { program_exception_flag = true }))
