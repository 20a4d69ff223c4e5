-- ===== src/Console/Printf/Programs.antt =====
-- `printf` leaves the lists of programs and the scheduled terminal as they are, whatever the format.
use ece391_kernel.Base.{ℕ, ◌%◌, ◌^◌, ◌==◌, true, false, if_ind, List, [], ◌∷◌, get_or}
use ece391_kernel.Text.{itoa}
use ece391_kernel.State.{Console}
use ece391_kernel.Console.{putc, puts}
use ece391_kernel.Console.Programs.{
  SamePrograms, same_refl, same_trans, putc-SamePrograms, puts-SamePrograms,
}
use ece391_kernel.Console.Printf.{
  Output, Mode, text, conversion, stops, step, printf_loop, printf, hex_string, signed_string,
}

abbrev screen : Output
screen = record { put_char = putc; put_string = puts }

module _ (strings : ℕ → List ℕ) (stack : ℕ → ℕ) where
  -- After one character of the format.
  abbrev Stepped : Console → Mode × List ℕ × Console → Type 0
  Stepped k r = SamePrograms k r.2

  step-Stepped :
      (mode : Mode) (c : ℕ) (esp : List ℕ) (k : Console)
      → Stepped k (step screen strings stack mode c esp k)
  unfolding step
  step-Stepped text c esp k =
      if_ind (Stepped k) (c == b'%') {x = (conversion false, esp, k)} (λ _. same_refl k)
        (λ _. putc-SamePrograms c k)
  step-Stepped (conversion alternate) c esp k =
      let w = get_or esp 0 0 in
      let string = λ (s : List ℕ). puts-SamePrograms s k in
      if_ind (Stepped k) (c == b'%') {x = (text, esp, putc b'%' k)} (λ _. putc-SamePrograms b'%' k)
        (λ _.
          if_ind (Stepped k) (c == b'#') {x = (conversion true, esp, k)} (λ _. same_refl k)
            (λ _.
              if_ind (Stepped k) (c == b'x') (λ _. string (hex_string stack alternate w))
                (λ _.
                  if_ind (Stepped k) (c == b'u') (λ _. string (itoa w 10))
                    (λ _.
                      if_ind (Stepped k) (c == b'd') (λ _. string (signed_string w))
                        (λ _.
                          if_ind (Stepped k) (c == b'c') (λ _. putc-SamePrograms (w % 2 ^ 8) k)
                            (λ _.
                              if_ind (Stepped k) (c == b's') (λ _. string (strings w))
                                (λ _. same_refl k)))))))

  printf_loop-SamePrograms :
      (mode : Mode) (buf esp : List ℕ) (k : Console)
      → SamePrograms k (printf_loop screen strings stack mode buf esp k).1
  unfolding printf_loop
  printf_loop-SamePrograms text [] esp k = same_refl k
  printf_loop-SamePrograms (conversion alternate) [] esp k = same_refl k
  printf_loop-SamePrograms mode (c ∷ buf) esp k =
      let s = step screen strings stack mode c esp k in
      if_ind {A = ℕ × Console} (λ r. SamePrograms k r.1) (stops screen strings stack mode c)
        (λ _. same_refl k)
        (λ _.
          same_trans k s.2 _ (step-Stepped mode c esp k) (printf_loop-SamePrograms s.0 buf s.1 s.2))

  pub printf-SamePrograms :
      (format esp : List ℕ) (k : Console) → SamePrograms k (printf strings stack format esp k).1
  unfolding printf
  printf-SamePrograms format esp k = printf_loop-SamePrograms text format esp k
