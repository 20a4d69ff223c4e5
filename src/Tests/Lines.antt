-- ===== src/Tests/Lines.antt =====
-- grep on a directory of two names, the directory's own and that of a file of three lines.
use mathlib.Core.List.{append-nil}
use ece391_kernel.Base.{
  ℕ, suc, ◌≡◌, refl, sym, ap, ◌∙◌, false, ◌==◌, if◌then◌else◌, List, [], ◌∷◌, Option, some, inl,
  inr, length, length-replicate, replicate, take, drop, min, arith,
}
use ece391_kernel.Base.Int.{ℤ, pos, pos_part}
use ece391_kernel.Text.{byte}
use ece391_kernel.FileSystem.Layout.{minus_one}
use ece391_kernel.User.{Os}
use ece391_kernel.User.Grep.Buffer.{IsBuffer}
use ece391_kernel.User.Grep.Disk.{Disk, shows, opens, IsDisk}
use ece391_kernel.User.Grep.Directory.{found_files, grep_main_lem}
use ece391_kernel.User.Grep.Lines.{lines, reported}
use ece391_kernel.User.Grep.{grep_main}

-- "ab", "b" and "c"
abbrev three_lines : List ℕ
three_lines = 97 ∷ 98 ∷ 10 ∷ 98 ∷ 10 ∷ 99 ∷ []

read_entry : List (List ℕ) → Disk → ℤ × List ℕ × Disk
read_entry [] v = (pos 0, [], v)
read_entry (name ∷ names) v = (pos (length name), name, record v { names = names })

one_text : List ℕ → Option (List ℕ)
one_text name = some three_lines

abbrev reading : ℤ → (n : ℕ) → Disk → ℤ × List ℕ × Disk
reading fd n v =
    if pos_part fd == 2
    then read_entry v.names v
    else (pos (min n (length v.left)), take n v.left, opens v (drop n v.left))

abbrev folder : Os Disk
folder = record {
  execute = λ command v. (minus_one, v);
  open_file = λ name v. if byte name == 46 then (pos 2, v) else (pos 3, opens v three_lines);
  read = reading;
  write = λ fd buf n v. (pos n, shows v (take n buf));
  getargs = λ n v. (pos 0, 98 ∷ 0 ∷ [], v);
  close = λ fd v. (pos 0, v);
}

folder-IsDisk : IsDisk folder one_text 2 3 (98 ∷ []) (λ v. v)
unfolding read_entry one_text byte
folder-IsDisk = record {
  write_shows = λ buf n v fits. refl;
  read_text = λ n v. (
    [],
    opens v (drop n v.left),
    ap (λ l. (pos (min n (length v.left)), l, opens v (drop n v.left)))
        (sym (append-nil (take n v.left))),
    omega arith,
    refl,
  );
  closes = λ v. (v, refl, refl);
  open_text = λ c name t v visible there.
      let test : (c == 46) ≡ false = ground (arith, visible) in
      let same : three_lines ≡ t = cc there in
      (opens v three_lines, rw test refl, ap (opens v) same);
  open_directory = λ v. (v, refl, refl);
  read_end = λ v e. ([], v, ap (λ names. read_entry names v) e, refl);
  read_name = λ c name more v e. (
    [],
    record v { names = more },
    ap (λ names. read_entry names v) e
        ∙ ap (λ l. (pos (suc (length name)), l, record v { names = more }))
            (sym (append-nil (c ∷ name))),
    refl,
  );
  gives_pattern = λ v. ([], v, refl, refl);
}

blank-IsBuffer : (n : ℕ) → IsBuffer (replicate 1025 0)
blank-IsBuffer n = record {
  size = length-replicate {A = ℕ} 1025 0;
  guarded = λ e. absurd (omega (arith, e));
}

abbrev two_names : List (List ℕ)
two_names = (46 ∷ []) ∷ (102 ∷ []) ∷ []

abbrev start : Disk
start = record { names = two_names; left = []; shown = [] }

-- "f:ab" and "f:b" are written.
found_two :
    found_files one_text (98 ∷ []) two_names ≡ 102 ∷ 58 ∷ 97 ∷ 98 ∷ 10 ∷ 102 ∷ 58 ∷ 98 ∷ 10 ∷ []
unfolding one_text lines reported
found_two = refl

grep_main_lem_example :
    (s' : Disk) × (grep_main folder 3 8 (λ n. replicate 1025 0) start ≡ some (pos 0, s'))
    × (s'.shown ≡ found_files one_text (98 ∷ []) two_names)
unfolding one_text lines
grep_main_lem_example =
    grep_main_lem folder one_text 2 3 98 [] (λ v. v) folder-IsDisk (omega arith) (omega arith, tt) 8
      (λ n. replicate 1025 0) blank-IsBuffer two_names 3 start
      (
        (omega arith, tt),
        inl refl,
        ((omega arith, tt), inr (omega arith, omega arith, omega arith), tt),
      )
      (omega arith) refl
