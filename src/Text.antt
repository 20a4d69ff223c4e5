-- ===== src/Text.antt =====
-- The C string functions of student-distrib/lib.c. A string is the list of the bytes from the
-- pointer on; the end of the list reads as NUL, and a copy is the list of the bytes that it stores.
pub mod Spec
pub mod Compare
pub mod Copy
pub mod Number
pub mod Digits
use ece391_kernel.Base.{
  ℕ, zero, suc, ◌+◌, ◌-◌, ◌/◌, ◌%◌, ◌^◌, Bool, true, false, not, ◌||◌, ◌&&◌, List, [], ◌∷◌, ◌++◌,
  ltb, ◌==◌, if◌then◌else◌, get_or, set,
}
use ece391_kernel.Base.Int.{ℤ, pos, negsuc, ◌-ℤ◌}

-- `*s` and `s + 1`
unfoldable pub byte : List ℕ → ℕ
byte [] = 0
byte (c ∷ s) = c

unfoldable pub rest : List ℕ → List ℕ
rest [] = []
rest (c ∷ s) = s

-- A byte read as `int8_t`.
abbrev pub signed8 : ℕ → ℤ
signed8 c = if ltb c 128 then pos c else negsuc (255 - c)

unfoldable pub strlen : List ℕ → ℕ
strlen [] = 0
strlen (c ∷ s) = if c == 0 then 0 else suc (strlen s)

unfoldable pub strncmp : List ℕ → List ℕ → ℕ → ℤ
unfolding byte rest
strncmp s1 s2 zero = pos 0
strncmp s1 s2 (suc n) =
    let more = strncmp (rest s1) (rest s2) n in
    if not (byte s1 == byte s2) || (byte s1 == 0)
    then signed8 (byte s1) -ℤ signed8 (byte s2)
    else more

unfoldable pub strcpy : List ℕ → List ℕ
strcpy [] = 0 ∷ []
strcpy (c ∷ src) = if c == 0 then 0 ∷ [] else c ∷ strcpy src

-- The second loop of `strncpy`, from index i on: n - i rounds are left.
unfoldable pub strncpy_pad : ℕ → List ℕ
strncpy_pad zero = []
strncpy_pad (suc n) = 0 ∷ strncpy_pad n

-- Both loops; n is the number of rounds left.
unfoldable pub strncpy : List ℕ → ℕ → List ℕ
unfolding byte rest strncpy_pad
strncpy src zero = []
strncpy src (suc n) =
    let more = strncpy (rest src) n in
    if not (byte src == 0) then byte src ∷ more else strncpy_pad (suc n)

-- `lookup[i]` of `itoa`
unfoldable pub digit_char : ℕ → ℕ
digit_char i = if ltb i 10 then b'0' + i else b'A' + (i - 10)

-- The `while (newval > 0)` loop of `itoa`: the digits, lowest first. Each round at least halves
-- `newval`, so `newval` rounds are enough.
unfoldable pub itoa_loop : ℕ → ℕ → ℕ → List ℕ
unfolding digit_char
itoa_loop zero newval radix = []
itoa_loop (suc fuel) newval radix =
    let more = itoa_loop fuel (newval / radix) radix in
    if ltb 0 newval then digit_char (newval % radix) ∷ more else []

-- The loop of `strrev`, in place; `length / 2` rounds are enough.
unfoldable pub strrev_loop : ℕ → List ℕ → ℕ → ℕ → List ℕ
strrev_loop zero s beg end = s
strrev_loop (suc fuel) s beg end =
    let next =
      strrev_loop fuel (set (set s end (get_or s beg 0)) beg (get_or s end 0)) (beg + 1)
        (end - 1) in
    if ltb beg end then next else s

-- On an empty string the C code has `end == -1`, here 0: the loop does not run either way.
unfoldable pub strrev : List ℕ → List ℕ
unfolding strlen strrev_loop
strrev s = strrev_loop (strlen s) s 0 (strlen s - 1)

-- The string that `itoa` leaves in `buf`, without its NUL.
unfoldable pub itoa : ℕ → ℕ → List ℕ
unfolding itoa_loop strrev
itoa value radix = if value == 0 then b'0' ∷ [] else strrev (itoa_loop value value radix)
