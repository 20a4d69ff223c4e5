-- ===== src/Text/Spec.antt =====
-- What a C string stands for: its bytes before the first NUL, at most n of them.
use ece391_kernel.Base.{ℕ, zero, suc, ◌<◌, List, [], ◌∷◌, ◌==◌, if◌then◌else◌}

abbrev pub c_str : ℕ → List ℕ → List ℕ
c_str zero s = []
c_str (suc n) [] = []
c_str (suc n) (c ∷ s) = if c == 0 then [] else c ∷ c_str n s

-- Every element of the list is a byte.
abbrev pub AllBytes : List ℕ → Type 0
AllBytes [] = Unit
AllBytes (c ∷ s) = (c < 256) × AllBytes s

-- No element of the list is NUL.
abbrev pub NonNul : List ℕ → Type 0
NonNul [] = Unit
NonNul (c ∷ s) = (0 < c) × NonNul s
