-- ===== src/User/Grep/Match.antt =====
-- The search for the pattern within one line.
use ece391_kernel.Base.{
  ℕ, suc, ◌+◌, ◌<◌, ◌≡◌, refl, sym, ap, ap₂, ◌∙◌, Bool, true, false, ◌&&◌, ◌||◌, ◌==◌, ltb,
  if◌then◌else◌, List, [], ◌∷◌, ◌++◌, length, arith, ℕ_discrete,
}
use ece391_kernel.Text.{byte, rest, strlen}
use ece391_kernel.Text.Spec.{NonNul}
use ece391_kernel.FileSystem.Layout.{is_zero}
use ece391_kernel.User.Support.{strncmp, difference-nonzero}
use ece391_kernel.User.Grep.Lines.{is_prefix, occurs}
use ece391_kernel.User.Grep.Buffer.{regroup, length-next, get_or-here, drop-here}
use ece391_kernel.User.Grep.{search_line}

pub strlen-nul : (s tail : List ℕ) → NonNul s → strlen (s ++ 0 ∷ tail) ≡ length s
unfolding strlen
strlen-nul [] tail h = refl
strlen-nul (c ∷ s) tail h =
    let test : (c == 0) ≡ false = ground (arith, h.0) in rw test (ap suc (strlen-nul s tail h.1))

-- With the length of one of them, `ece391_strncmp` tells whether it is a prefix of the other.
pub strncmp-is_prefix :
    (line pattern x y : List ℕ)
    → NonNul line
    → NonNul pattern
    → is_zero (strncmp (line ++ 0 ∷ x) (pattern ++ 0 ∷ y) (length pattern)) ≡ is_prefix pattern line
unfolding strncmp is_prefix byte rest
strncmp-is_prefix line [] x y hl hp = refl
strncmp-is_prefix [] (d ∷ pattern) x y hl hp =
    let test : (0 == d) ≡ false = ground (arith, hp.0) in
    rw test (difference-nonzero 0 d (omega (arith, hp.0)))
strncmp-is_prefix (c ∷ line) (d ∷ pattern) x y hl hp = elim (ℕ_discrete c d) [
  | yes same ↦
      let test : (c == d) ≡ true = ground (arith, same) in
      let back : (d == c) ≡ true = ground (arith, same) in
      let no_nul : (c == 0) ≡ false = ground (arith, hl.0) in
      rw (test, back, no_nul) (strncmp-is_prefix line pattern x y hl.1 hp.1)
  | no differ ↦
      let test : (c == d) ≡ false = ground (arith, differ) in
      let back : (d == c) ≡ false = ground (arith, differ) in
      rw (test, back) (difference-nonzero c d differ)
]

-- The test of one place: the first character is compared before the whole.
place-is_prefix :
    (c : ℕ) (line : List ℕ) (d : ℕ) (pattern x y : List ℕ)
    → d < 128
    → NonNul (c ∷ line)
    → NonNul (d ∷ pattern)
    → ((ltb d 128 && (d == c))
        && is_zero (strncmp (c ∷ (line ++ 0 ∷ x)) (d ∷ (pattern ++ 0 ∷ y)) (length (d ∷ pattern))))
      ≡ is_prefix (d ∷ pattern) (c ∷ line)
unfolding is_prefix
place-is_prefix c line d pattern x y small hl hp =
    let whole = strncmp-is_prefix (c ∷ line) (d ∷ pattern) x y hl hp in
    elim (ℕ_discrete d c) [
      | yes same ↦
          let low : ltb d 128 ≡ true = ground (arith, small) in
          let test : (d == c) ≡ true = ground (arith, same) in
          rw (low, test) (whole ∙ ap (λ b. b && is_prefix pattern line) test)
      | no differ ↦
          let low : ltb d 128 ≡ true = ground (arith, small) in
          let test : (d == c) ≡ false = ground (arith, differ) in rw (low, test) refl
    ]

if_or : (a b : Bool) → (if a then true else b) ≡ (a || b)
if_or true b = refl
if_or false b = refl

-- On a line that ends with NUL the search finds exactly the patterns that occur in it.
pub search_line-occurs :
    (line : List ℕ) (d : ℕ) (pattern before x y : List ℕ)
    → d < 128
    → NonNul line
    → NonNul (d ∷ pattern)
    → search_line (length line) ((d ∷ pattern) ++ 0 ∷ y) (before ++ (line ++ 0 ∷ x)) (length before)
      ≡ occurs (d ∷ pattern) line
unfolding search_line occurs byte
search_line-occurs [] d pattern before x y small hl hp = refl
search_line-occurs (c ∷ line) d pattern before x y small hl hp =
    let buf = before ++ (c ∷ (line ++ 0 ∷ x)) in
    let s = (d ∷ pattern) ++ 0 ∷ y in
    let here = get_or-here before c (line ++ 0 ∷ x) in
    let from = drop-here before ((c ∷ line) ++ 0 ∷ x) in
    let size = strlen-nul (d ∷ pattern) y hp in
    let more : search_line (length line) s buf (length before + 1) ≡ occurs (d ∷ pattern) line =
      ap₂ (search_line (length line) s) (sym (regroup before c (line ++ 0 ∷ x)))
        (sym (length-next before c))
      ∙ search_line-occurs line d pattern (before ++ c ∷ []) x y small hl.1 hp in
    rw (here, from, size, place-is_prefix c line d pattern x y small hl hp)
      (if_or (is_prefix (d ∷ pattern) (c ∷ line)) _
        ∙ ap (λ b. is_prefix (d ∷ pattern) (c ∷ line) || b) more)
