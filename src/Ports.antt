-- ===== src/Ports.antt =====
-- Port output: what the `outb` instruction sends, oldest first, as (value, port).
use ece391_kernel.Base.{ℕ, List, [], ◌∷◌, ◌++◌}

abbrev pub Ports : Type 0
Ports = List (ℕ × ℕ)

-- `outb(value, port)`
abbrev pub outb : ℕ → ℕ → Ports → Ports
outb value port sent = sent ++ (value, port) ∷ []
