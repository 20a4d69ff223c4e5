-- ===== src/User/Support.antt =====
-- The string functions of syscalls/ece391support.c that grep uses besides `ece391_strlen` and `ece391_fdputs`.
use ece391_kernel.Base.{
  ℕ, zero, suc, ◌+◌, ◌==◌, ◌-◌, ◌≡◌, ◌≢◌, ap, false, dec_lt, arith, if◌then◌else◌, List, get_or,
  set, length,
}
use ece391_kernel.Base.Int.{ℤ, pos, negsuc, ◌-ℤ◌}
use ece391_kernel.Text.{byte, rest}
use ece391_kernel.FileSystem.Layout.{is_zero}

-- `ece391_strncmp`
unfoldable pub strncmp : List ℕ → List ℕ → (n : ℕ) → ℤ
unfolding byte rest
strncmp s1 s2 zero = pos 0
strncmp s1 s2 (suc n) =
    let more = strncmp (rest s1) (rest s2) n in
    if byte s1 == byte s2
    then if byte s1 == 0 then pos 0 else more
    else pos (byte s1) -ℤ pos (byte s2)

-- The loop of `ece391_strcpy` where both strings stand in one array, at `dst` and `src`.
unfoldable pub strcpy_loop : (rounds dst src : ℕ) → List ℕ → List ℕ
strcpy_loop zero dst src buf = buf
strcpy_loop (suc rounds) dst src buf =
    let c = get_or buf src 0 in
    let more = strcpy_loop rounds (dst + 1) (src + 1) (set buf dst c) in
    if c == 0 then set buf dst c else more

-- `ece391_strcpy (buf, buf + src)`; outside the array a byte reads as NUL, which ends the loop.
unfoldable pub strcpy_within : (src : ℕ) → List ℕ → List ℕ
unfolding strcpy_loop
strcpy_within src buf = strcpy_loop (suc (length buf)) 0 src buf

pub difference-nonzero : (c d : ℕ) → c ≢ d → is_zero (pos c -ℤ pos d) ≡ false
unfolding ◌-ℤ◌
difference-nonzero c d ne = elim (dec_lt d c) [
  | yes more ↦
      let positive : pos c -ℤ pos d ≡ pos (suc (c - d - 1)) = ground (arith, more) in
      ap is_zero positive
  | no less ↦
      let negative : pos c -ℤ pos d ≡ negsuc (d - c - 1) = ground (arith, less, ne) in
      ap is_zero negative
]
