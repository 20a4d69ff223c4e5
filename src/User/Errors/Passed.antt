-- ===== src/User/Errors/Passed.antt =====
-- Every test of the errors passes where calls are refused that should be.
use mathlib.Core.Path.{subst}
use ece391_kernel.Base.{
  ℕ, zero, suc, ◌+◌, ◌≤◌, ◌≡◌, ◌≢◌, refl, ap, true, false, ◌==◌, if◌then◌else◌, List, arith, if_ind,
}
use ece391_kernel.Base.Int.{ℤ, pos, pos_part, ltb_ℤ}
use ece391_kernel.FileSystem.Layout.{minus_one, is_minus_one}
use ece391_kernel.State.{Outcome, done}
use ece391_kernel.User.Errors.Texts
use ece391_kernel.User.Calls.{M, bind, Calls, fdputs, Returns, Returns-bind}
use ece391_kernel.User.Errors.{
  negative, big, check, verdict, err_fd, err_neg_fd, err_big_fd, open_loop, close_each,
  err_open_lots, err_open, close_checks, read_checks, write_checks, err_unopened, err_vidmap,
  err_stdin_out, err_syscall_num, err_all, run_test,
}
use ece391_kernel.User.Errors.Strict.{IsStrict}

module _ {S : Type 0} (os : Calls S) (Open : (a b : ℕ) → S → Type 0)
    (strict : IsStrict os Open) where
  -- The test passed, and nothing is left open.
  abbrev pub Passed : ℕ → S → Type 0
  Passed fail s = (fail ≡ 0) × Open 2 2 s

  -- A refused call is what was expected.
  check-Passed :
      (result : ℤ) (fail : ℕ) (message : List ℕ) (s : S)
      → result ≡ minus_one
      → Passed fail s
      → Returns (check os result fail message s) Passed
  unfolding check
  check-Passed result fail message s e h =
      let test : is_minus_one result ≡ true = ap is_minus_one e in rw (check, test) h

  verdict-Passed :
      (failed passed : List ℕ) (fail : ℕ) (s : S)
      → Passed fail s
      → Returns (verdict os failed passed fail s) Passed
  unfolding verdict fdputs
  verdict-Passed failed passed fail s h =
      Returns-bind _ _ (λ r s'. Open 2 2 s') Passed
        (strict.says (if fail == 0 then passed else failed) _ 2 2 s h.1) (λ r s' h'. (h.0, h'))

  -- A refused call, and what follows the check of its result.
  refused :
      {B : Type 0} (Q : B → S → Type 0) (fail : ℕ) (message : List ℕ) (o : Outcome (ℤ × S))
      (next : ℕ → M S B)
      → fail ≡ 0
      → Returns o (λ r s'. (r ≡ minus_one) × Open 2 2 s')
      → ((fail : ℕ) (s : S) → Passed fail s → Returns (next fail s) Q)
      → Returns (bind o (λ r. λ s. bind (check os r fail message s) next)) Q
  refused Q fail message o next zero_so_far h then_next =
      Returns-bind o _ (λ r s'. (r ≡ minus_one) × Open 2 2 s') Q h
        (λ r s' g.
          Returns-bind _ next Passed Q (check-Passed r fail message s' g.0 (zero_so_far, g.1))
            then_next)

  refused_read :
      {B : Type 0} (Q : B → S → Type 0) (fail : ℕ) (message : List ℕ)
      (o : Outcome ((ℤ × List ℕ) × S)) (next : List ℕ → ℕ → M S B)
      → fail ≡ 0
      → Returns o (λ r s'. (r.0 ≡ minus_one) × Open 2 2 s')
      → ((bytes : List ℕ) (fail : ℕ) (s : S) → Passed fail s → Returns (next bytes fail s) Q)
      → Returns (bind o (λ r. λ s. bind (check os r.0 fail message s) (next r.1))) Q
  refused_read Q fail message o next zero_so_far h then_next =
      Returns-bind o _ (λ r s'. (r.0 ≡ minus_one) × Open 2 2 s') Q h
        (λ r s' g.
          Returns-bind _ (next r.1) Passed Q
            (check-Passed r.0 fail message s' g.0 (zero_so_far, g.1)) (then_next r.1))

  err_vidmap-Passed : (s : S) → Open 2 2 s → Returns (err_vidmap os s) Passed
  unfolding err_vidmap
  err_vidmap-Passed s h =
      refused Passed 0 _ _ _ refl (strict.refuses_vidmap 0 s (omega arith) h) (λ f s h.
        refused Passed f _ _ _ h.0 (strict.refuses_vidmap 0x400000 s (omega arith) h.1)
          (verdict-Passed _ _))

  err_syscall_num-Passed : (s : S) → Open 2 2 s → Returns (err_syscall_num os s) Passed
  unfolding err_syscall_num
  err_syscall_num-Passed s h =
      refused Passed 0 _ _ _ refl (strict.refuses_call big s refl h) (λ f s h.
        refused Passed f _ _ _ h.0 (strict.refuses_call negative s refl h.1) (λ f s h.
          refused Passed f _ _ _ h.0 (strict.refuses_call (pos 0) s refl h.1) (verdict-Passed _ _)))

  err_open-Passed : (s : S) → Open 2 2 s → Returns (err_open os s) Passed
  unfolding err_open
  err_open-Passed s h = refused Passed 0 _ _ _ refl (strict.refuses_helloo s h) (λ f s h.
      refused Passed f _ _ _ h.0 (strict.refuses_shel s h.1)
        (λ f s h. refused Passed f _ _ _ h.0 (strict.refuses_empty s h.1) (verdict-Passed _ _)))

  err_stdin_out-Passed :
      (buf : List ℕ) (s : S) → Open 2 2 s → Returns (err_stdin_out os buf s) Passed
  unfolding err_stdin_out
  err_stdin_out-Passed buf s h =
      refused Passed 0 _ _ _ refl
        (strict.refuses_write (pos 0) buf 31 s (λ e. absurd (ground (arith, e))) h)
        (λ f s h.
          refused_read Passed f _ _ _ h.0
            (strict.refuses_read (pos 1) 31 s (λ e. absurd (ground (arith, e))) h.1)
            (λ bytes. verdict-Passed _ _))

  err_fd-Passed :
      (fd : ℤ) (failed passed buf : List ℕ) (s : S)
      → fd ≢ pos 0
      → fd ≢ pos 1
      → Open 2 2 s
      → Returns (err_fd os fd failed passed buf s) Passed
  unfolding err_fd
  err_fd-Passed fd failed passed buf s not_in not_out h =
      refused_read Passed 0 _ _ _ refl (strict.refuses_read fd 31 s not_in h) (λ bytes f s h.
        refused Passed f _ _ _ h.0 (strict.refuses_write fd _ 31 s not_out h.1) (λ f s h.
          refused Passed f _ _ _ h.0 (strict.refuses_close fd s h.1) (verdict-Passed _ _)))

  close_checks-Passed :
      (rounds i fail : ℕ) (s : S) → Passed fail s → Returns (close_checks os rounds i fail s) Passed
  unfolding close_checks
  close_checks-Passed zero i fail s h = h
  close_checks-Passed (suc rounds) i fail s h =
      refused Passed fail _ _ _ h.0 (strict.refuses_close (pos i) s h.1)
        (close_checks-Passed rounds (i + 1))

  read_checks-Passed :
      (rounds i fail : ℕ) (buf : List ℕ) (s : S)
      → 2 ≤ i
      → Passed fail s
      → Returns (read_checks os rounds i fail buf s) (λ r. Passed r.0)
  unfolding read_checks
  read_checks-Passed zero i fail buf s lo h = h
  read_checks-Passed (suc rounds) i fail buf s lo h =
      refused_read (λ r. Passed r.0) fail _ _ _ h.0
        (strict.refuses_read (pos i) 31 s (λ e. absurd (ground (arith, e))) h.1)
        (λ bytes fail s h. read_checks-Passed rounds (i + 1) fail _ s (omega (arith, lo)) h)

  write_checks-Passed :
      (rounds i fail : ℕ) (buf : List ℕ) (s : S)
      → 2 ≤ i
      → Passed fail s
      → Returns (write_checks os rounds i fail buf s) Passed
  unfolding write_checks
  write_checks-Passed zero i fail buf s lo h = h
  write_checks-Passed (suc rounds) i fail buf s lo h =
      refused Passed fail _ _ _ h.0
        (strict.refuses_write (pos i) buf 31 s (λ e. absurd (ground (arith, e))) h.1)
        (λ fail s h. write_checks-Passed rounds (i + 1) fail buf s (omega (arith, lo)) h)

  err_unopened-Passed : (buf : List ℕ) (s : S) → Open 2 2 s → Returns (err_unopened os buf s) Passed
  unfolding err_unopened
  err_unopened-Passed buf s h =
      Returns-bind _ _ Passed Passed (close_checks-Passed 8 0 0 s (refl, h)) (λ f s h.
        Returns-bind _ _ (λ r. Passed r.0) Passed (read_checks-Passed 6 2 f buf s (omega arith) h)
          (λ r s h.
            Returns-bind _ _ Passed Passed (write_checks-Passed 6 2 r.0 r.1 s (omega arith) h)
              (verdict-Passed _ _)))

  -- From descriptor b on all are opened, and the last round is refused.
  open_loop-Open :
      (n b cnt : ℕ) (s : S)
      → 2 ≤ b
      → b + n ≡ 8
      → Open 2 b s
      → Returns (open_loop os (suc n) cnt s) (λ r s'. (r ≡ cnt + 1) × Open 2 8 s')
  unfolding open_loop
  open_loop-Open zero b cnt s lo e h =
      let full : b ≡ 8 = omega (arith, e) in
      Returns-bind _ _ (λ r s'. (r ≡ minus_one) × Open 2 8 s') _
        (strict.refuses_ninth s (subst (λ b. Open 2 b s) full h))
        (λ r s' g. let test : is_minus_one r ≡ true = ap is_minus_one g.0 in rw test (refl, g.1))
  open_loop-Open (suc n) b cnt s lo e h =
      Returns-bind _ _ (λ r s'. (r ≡ pos b) × Open 2 (b + 1) s') _
        (strict.opens_directory b s lo (omega (arith, e)) h)
        (λ r s' g.
          let test : is_minus_one r ≡ false = ap is_minus_one g.0 in
          rw test (open_loop-Open n (b + 1) cnt s' (omega (arith, lo)) (omega (arith, e)) g.1))

  close_each-Open :
      (n a : ℕ) (s : S)
      → 2 ≤ a
      → a + n ≡ 8
      → Open a 8 s
      → Returns (close_each os n a s) (λ r s'. Open 8 8 s')
  unfolding close_each
  close_each-Open zero a s lo e h =
      let all : a ≡ 8 = omega (arith, e) in subst (λ a. Open a 8 s) all h
  close_each-Open (suc n) a s lo e h =
      Returns-bind _ _ (λ r s'. Open (a + 1) 8 s') _
        (strict.closes a 8 s lo (omega (arith, e)) (omega arith) h)
        (λ r s' g. close_each-Open n (a + 1) s' (omega (arith, lo)) (omega (arith, e)) g)

  err_open_lots-Passed : (s : S) → Open 2 2 s → Returns (err_open_lots os s) Passed
  unfolding err_open_lots fdputs
  err_open_lots-Passed s h =
      Returns-bind _ _ (λ r s'. (r ≡ 0 + 1) × Open 2 8 s') Passed
        (open_loop-Open 6 2 0 s (omega arith) refl h)
        (λ cnt s g.
          Returns-bind _ _ (λ r s'. Open 8 8 s') Passed
            (close_each-Open 6 2 s (omega arith) refl g.1)
            (λ r s h.
              Returns-bind _ _ (λ r s'. Open 2 2 s') Passed
                (strict.says _ _ 2 2 s (strict.all_closed s h))
                (λ r s h. (ground (arith, g.0), h))))

  err_neg_fd-Passed : (buf : List ℕ) (s : S) → Open 2 2 s → Returns (err_neg_fd os buf s) Passed
  unfolding err_neg_fd
  err_neg_fd-Passed buf s =
      err_fd-Passed negative _ _ buf s (λ e. absurd (ground (arith, e)))
        (λ e. absurd (ground (arith, e)))

  err_big_fd-Passed : (buf : List ℕ) (s : S) → Open 2 2 s → Returns (err_big_fd os buf s) Passed
  unfolding err_big_fd
  err_big_fd-Passed buf s =
      err_fd-Passed big _ _ buf s (λ e. absurd (ground (arith, e)))
        (λ e. absurd (ground (arith, e)))

  err_all-Passed : (buf : ℕ → List ℕ) (s : S) → Open 2 2 s → Returns (err_all os buf s) Passed
  unfolding err_all fdputs
  err_all-Passed buf s h =
      Returns-bind _ _ Passed Passed (err_neg_fd-Passed (buf 1) s h) (λ f1 s h1.
        Returns-bind _ _ Passed Passed (err_big_fd-Passed (buf 2) s h1.1) (λ f2 s h2.
          Returns-bind _ _ Passed Passed (err_open_lots-Passed s h2.1) (λ f3 s h3.
            Returns-bind _ _ Passed Passed (err_open-Passed s h3.1) (λ f4 s h4.
              Returns-bind _ _ Passed Passed (err_unopened-Passed (buf 5) s h4.1) (λ f5 s h5.
                Returns-bind _ _ Passed Passed (err_vidmap-Passed s h5.1) (λ f6 s h6.
                  Returns-bind _ _ Passed Passed (err_stdin_out-Passed (buf 7) s h6.1) (λ f7 s h7.
                    Returns-bind _ _ Passed Passed (err_syscall_num-Passed s h7.1) (λ f8 s h8.
                      Returns-bind _ _ (λ r s'. Open 2 2 s') Passed (strict.says _ _ 2 2 s h8.1)
                        (λ r s h. (
                          omega (arith, h1.0, h2.0, h3.0, h4.0, h5.0, h6.0, h7.0, h8.0),
                          h,
                        ))))))))))

  -- A number that is none of a test.
  invalid-Passed :
      (message : List ℕ) (s : S)
      → Open 2 2 s
      → Returns (bind (fdputs os (pos 1) message s) (λ r. λ s. done (0, s))) Passed
  unfolding fdputs
  invalid-Passed message s h =
      Returns-bind _ _ (λ r s'. Open 2 2 s') Passed (strict.says _ _ 2 2 s h) (λ r s h. (refl, h))

  -- Whatever number is typed, the test passes.
  pub run_test-Passed :
      (buf : ℕ → List ℕ) (select : ℤ) (s : S)
      → Open 2 2 s
      → Returns (run_test os buf select s) Passed
  unfolding run_test
  run_test-Passed buf select s h =
      let P = λ (m : M S ℕ). Returns (m s) Passed in
      let n = pos_part select in
      let invalid = invalid-Passed Texts.invalid_number s h in
      if_ind P (ltb_ℤ select (pos 0)) (λ _. invalid)
        (λ _.
          if_ind P (n == 0) (λ _. err_all-Passed buf s h)
            (λ _.
              if_ind P (n == 1) (λ _. err_neg_fd-Passed (buf 1) s h)
                (λ _.
                  if_ind P (n == 2) (λ _. err_big_fd-Passed (buf 2) s h)
                    (λ _.
                      if_ind P (n == 3) (λ _. err_open_lots-Passed s h)
                        (λ _.
                          if_ind P (n == 4) (λ _. err_open-Passed s h)
                            (λ _.
                              if_ind P (n == 5) (λ _. err_unopened-Passed (buf 5) s h)
                                (λ _.
                                  if_ind P (n == 6) (λ _. err_vidmap-Passed s h)
                                    (λ _.
                                      if_ind P (n == 7) (λ _. err_stdin_out-Passed (buf 7) s h)
                                        (λ _.
                                          if_ind P (n == 8) (λ _. err_syscall_num-Passed s h)
                                            (λ _. invalid))))))))))
