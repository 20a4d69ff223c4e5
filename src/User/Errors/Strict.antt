-- ===== src/User/Errors/Strict.antt =====
-- Systems that refuse what they should refuse.
use ece391_kernel.Base.{ℕ, ◌+◌, ◌<◌, ◌≤◌, ◌≡◌, ◌≢◌, true, ◌||◌, List}
use ece391_kernel.Base.Int.{ℤ, pos, ltb_ℤ}
use ece391_kernel.FileSystem.Layout.{minus_one}
use ece391_kernel.User.Errors.Texts
use ece391_kernel.User.Calls.{Calls, Returns}

-- `Open a b` holds of a state in which, besides the two of the terminal, exactly the descriptors from a to b - 1
-- are open. A call that is refused returns -1 and leaves them alone.
pub record IsStrict {S : Type 0} (os : Calls S) (Open : (a b : ℕ) → S → Type 0) : Type 0 where
  pub says :
      (buf : List ℕ) (n a b : ℕ) (s : S)
      → Open a b s
      → Returns (os.write (pos 1) buf n s) (λ r s'. Open a b s')
  pub refuses_read :
      (fd : ℤ) (n : ℕ) (s : S)
      → fd ≢ pos 0
      → Open 2 2 s
      → Returns (os.read fd n s) (λ r s'. (r.0 ≡ minus_one) × Open 2 2 s')
  pub refuses_write :
      (fd : ℤ) (buf : List ℕ) (n : ℕ) (s : S)
      → fd ≢ pos 1
      → Open 2 2 s
      → Returns (os.write fd buf n s) (λ r s'. (r ≡ minus_one) × Open 2 2 s')
  pub refuses_close :
      (fd : ℤ) (s : S)
      → Open 2 2 s
      → Returns (os.close fd s) (λ r s'. (r ≡ minus_one) × Open 2 2 s')
  pub refuses_vidmap :
      (screen_start : ℕ) (s : S)
      → screen_start < 0x08000000
      → Open 2 2 s
      → Returns (os.vidmap screen_start s) (λ r s'. (r ≡ minus_one) × Open 2 2 s')
  pub refuses_call :
      (num : ℤ) (s : S)
      → (ltb_ℤ num (pos 1) || ltb_ℤ (pos 10) num) ≡ true
      → Open 2 2 s
      → Returns (os.call num s) (λ r s'. (r ≡ minus_one) × Open 2 2 s')
  pub refuses_helloo :
      (s : S)
      → Open 2 2 s
      → Returns (os.open_file Texts.helloo s) (λ r s'. (r ≡ minus_one) × Open 2 2 s')
  pub refuses_shel :
      (s : S)
      → Open 2 2 s
      → Returns (os.open_file Texts.shel s) (λ r s'. (r ≡ minus_one) × Open 2 2 s')
  pub refuses_empty :
      (s : S)
      → Open 2 2 s
      → Returns (os.open_file Texts.empty s) (λ r s'. (r ≡ minus_one) × Open 2 2 s')
  pub opens_directory :
      (b : ℕ) (s : S)
      → 2 ≤ b
      → b < 8
      → Open 2 b s
      → Returns (os.open_file Texts.dot s) (λ r s'. (r ≡ pos b) × Open 2 (b + 1) s')
  pub refuses_ninth :
      (s : S)
      → Open 2 8 s
      → Returns (os.open_file Texts.dot s) (λ r s'. (r ≡ minus_one) × Open 2 8 s')
  pub closes :
      (a b : ℕ) (s : S)
      → 2 ≤ a
      → a < b
      → b ≤ 8
      → Open a b s
      → Returns (os.close (pos a) s) (λ r s'. Open (a + 1) b s')
  pub all_closed : (s : S) → Open 8 8 s → Open 2 2 s
