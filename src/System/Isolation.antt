-- ===== src/System/Isolation.antt =====
-- Programs have memory of their own.
use ece391_kernel.Base.{ℕ, ◌+◌, ◌-◌, ◌*◌, ◌<◌, ◌≤◌, ◌≡◌, ◌≢◌, sym, ap, ◌∙◌, true, some, arith}
use ece391_kernel.State.{Kernel}
use ece391_kernel.Paging.{setup_paging}
use ece391_kernel.Paging.Walk.{Placed, translate}
use ece391_kernel.Process.Table.{count, listed}
use ece391_kernel.Scheduling.RoundRobin.{own_page}
use ece391_kernel.System.Sound.{IsSound}

-- A program is listed once, in one terminal.
listed-once :
    (k : Kernel) (t i u j : ℕ)
    → IsSound k
    → t < 3
    → u < 3
    → i < count k t
    → j < count k u
    → listed k t i ≡ listed k u j
    → (t ≡ u) × (i ≡ j)
listed-once k t i u j h tl ul il jl e =
    let tables = h.stable.tables in
    let same : t ≡ u =
      sym (tables.listed_own t i tl il)
      ∙ ap (λ p. (k.pcbs p).term_idx) e
      ∙ tables.listed_own u j ul jl in
    (same, tables.listed_once t i j tl il (rw same jl) (e ∙ ap (λ x. listed k x j) (sym same)))

-- In a sound state, take two different running programs: each with its number from the lists of the
-- terminals and with the pages that `setup_paging` gives it. User addresses v and w of the two, from 128 MB
-- on within 4 MB, never are the same byte of memory.
pub programs_apart :
    (k : Kernel) (at : Placed) (t i u j v w : ℕ)
    → IsSound k
    → t < 3
    → u < 3
    → i < count k t
    → j < count k u
    → (t ≡ u → i ≢ j)
    → (0x8000000 ≤ v) × (v < 0x8400000)
    → (0x8000000 ≤ w) × (w < 0x8400000)
    → translate at (setup_paging (listed k t i) k.tables) true v
      ≢ translate at (setup_paging (listed k u j) k.tables) true w
programs_apart k at t i u j v w h tl ul il jl other vr wr e =
    let p = listed k t i in
    let q = listed k u j in
    let p_low = h.stable.tables.listed_low t i tl il in
    let q_low = h.stable.tables.listed_low u j ul jl in
    let both : some (0x800000 + p * 0x400000 + (v - 0x8000000))
        ≡ some (0x800000 + q * 0x400000 + (w - 0x8000000)) =
      sym (own_page at k.tables p v p_low vr.0 vr.1)
      ∙ e
      ∙ own_page at k.tables q w q_low wr.0 wr.1 in
    let address : 0x800000 + p * 0x400000 + (v - 0x8000000)
        ≡ 0x800000 + q * 0x400000 + (w - 0x8000000) =
      cc in
    let once =
      listed-once k t i u j h tl ul il jl (omega (arith, address, vr.0, vr.1, wr.0, wr.1)) in
    other once.0 once.1
