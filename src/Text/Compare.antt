-- ===== src/Text/Compare.antt =====
-- `strncmp` decides equality of the strings, up to n bytes.
use ece391_kernel.Base.{
  ℕ, zero, suc, ◌<◌, ◌≡◌, refl, ◌≢◌, ◌↔◌, List, [], ◌∷◌, arith, sym, ◌∙◌, ℕ_discrete,
}
use ece391_kernel.Base.Int.{pos, ◌-ℤ◌}
use ece391_kernel.Text.{byte, rest, signed8, strncmp}
use ece391_kernel.Text.Spec.{c_str, AllBytes}

-- Two bytes that differ have a difference that is not zero.
signed8-sub-ne : (a b : ℕ) → a < 256 → b < 256 → a ≢ b → (signed8 a -ℤ signed8 b) ≢ pos 0
unfolding ◌-ℤ◌
signed8-sub-ne a b ha hb ne e = ground arith

signed8-sub_self : (a : ℕ) → (signed8 a -ℤ signed8 a) ≡ pos 0
unfolding ◌-ℤ◌
signed8-sub_self a = ground arith

c_str-byte : (n : ℕ) (s : List ℕ) → byte s ≢ 0 → c_str (suc n) s ≡ byte s ∷ c_str n (rest s)
unfolding byte rest
c_str-byte n [] h = absurd (h refl)
c_str-byte n (c ∷ s) h = ground arith

c_str-nul : (n : ℕ) (s : List ℕ) → byte s ≡ 0 → c_str (suc n) s ≡ []
unfolding byte
c_str-nul n [] h = refl
c_str-nul n (c ∷ s) h = ground arith

byte-lt : (s : List ℕ) → AllBytes s → byte s < 256
unfolding byte
byte-lt [] h = omega arith
byte-lt (c ∷ s) h = h.0

rest-AllBytes : (s : List ℕ) → AllBytes s → AllBytes (rest s)
unfolding rest
rest-AllBytes [] h = tt
rest-AllBytes (c ∷ s) h = h.1

pub strncmp-eq :
    (n : ℕ) (s1 s2 : List ℕ)
    → AllBytes s1
    → AllBytes s2
    → strncmp s1 s2 n ≡ pos 0
    → c_str n s1 ≡ c_str n s2
unfolding strncmp
strncmp-eq zero s1 s2 h1 h2 e = refl
strncmp-eq (suc n) s1 s2 h1 h2 e = elim (ℕ_discrete (byte s1) 0) [
  | yes z ↦ ground (
    arith,
    c_str-nul n s1 z,
    c_str-nul n s2,
    signed8-sub-ne (byte s1) (byte s2) (byte-lt s1 h1) (byte-lt s2 h2),
  )
  | no nz ↦ ground (
    arith,
    c_str-byte n s1 nz,
    c_str-byte n s2,
    signed8-sub-ne (byte s1) (byte s2) (byte-lt s1 h1) (byte-lt s2 h2),
    strncmp-eq n (rest s1) (rest s2) (rest-AllBytes s1 h1) (rest-AllBytes s2 h2),
  )
]

pub eq-strncmp : (n : ℕ) (s1 s2 : List ℕ) → c_str n s1 ≡ c_str n s2 → strncmp s1 s2 n ≡ pos 0
unfolding strncmp
eq-strncmp zero s1 s2 e = refl
eq-strncmp (suc n) s1 s2 e = elim (ℕ_discrete (byte s1) 0) [
  | yes z ↦ elim (ℕ_discrete (byte s2) 0) [
    | yes z2 ↦ ground (arith, signed8-sub_self 0)
    | no nz2 ↦ cc (c_str-nul n s1 z, c_str-byte n s2 nz2)
  ]
  | no nz ↦ elim (ℕ_discrete (byte s2) 0) [
    | yes z2 ↦ cc (c_str-byte n s1 nz, c_str-nul n s2 z2)
    | no nz2 ↦
        let same = sym (c_str-byte n s1 nz) ∙ e ∙ c_str-byte n s2 nz2 in
        ground (arith, same, eq-strncmp n (rest s1) (rest s2))
  ]
]

-- `strncmp(s1, s2, n)` is 0 exactly when the two C strings agree up to n bytes.
pub strncmp-zero_iff :
    (s1 s2 : List ℕ) (n : ℕ)
    → AllBytes s1
    → AllBytes s2
    → (strncmp s1 s2 n ≡ pos 0) ↔ (c_str n s1 ≡ c_str n s2)
strncmp-zero_iff s1 s2 n h1 h2 = (strncmp-eq n s1 s2 h1 h2, eq-strncmp n s1 s2)
