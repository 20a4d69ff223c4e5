-- ===== src/Tests/Files.antt =====
-- The theorems on strings, the file system and open files, at the small disk.
use ece391_kernel.Base.{
  ℕ, zero, suc, ◌+◌, ◌<◌, ◌≤◌, ◌≡◌, ◌↔◌, refl, inl, arith, false, ◌==◌, if_ind, [], ◌∷◌, ◌++◌, some,
  take,
}
use ece391_kernel.Base.Int.{pos, sub_ℕ}
use ece391_kernel.Text.{strlen, itoa}
use ece391_kernel.Text.Spec.{AllBytes}
use ece391_kernel.Text.Number.{itoa-value, numeral_value}
use ece391_kernel.FileSystem.{
  read_dentry_by_name, read_data, parse_command, check_validity, exec_head,
}
use ece391_kernel.FileSystem.Layout.{minus_one}
use ece391_kernel.FileSystem.Lookup.{
  entry, NameMatches, read_dentry_by_name-found, read_dentry_by_name-missing,
}
use ece391_kernel.FileSystem.Slice.{slice}
use ece391_kernel.FileSystem.ReadData.{read_data-inside, read_data-past, read_data-bad_block}
use ece391_kernel.FileSystem.Command.{parse_command_lem}
use ece391_kernel.FileSystem.Program.{check_validity_iff}
use ece391_kernel.State.{FileArray}
use ece391_kernel.Files.{file_read, cat_loop}
use ece391_kernel.Files.Read.{file_read-inside, moved}
use ece391_kernel.Files.Cat.{cat_loop_lem}
use ece391_kernel.Tests.Data.{
  cat_name, dot_entry, cat_entry, inode_of_length, small_fs, short_fs, closed_entry,
}

itoa-value_example : numeral_value 10 0 (itoa 391 10) ≡ 391
itoa-value_example = itoa-value 391 10 (omega arith) (omega arith)

pub names : (k : ℕ) → AllBytes (entry small_fs k).file_name
names k =
    if_ind (λ d. AllBytes d.file_name) (k + 1 == 1) {x = dot_entry} {y = cat_entry}
      (λ _. omega arith) (λ _. omega arith)

pub not_before : (j : ℕ) → j < 1 → ¬ NameMatches small_fs cat_name j
not_before zero lt e = ground (arith, e)
not_before (suc j) lt e = absurd (omega arith)

pub cat_short : strlen cat_name ≤ 32
unfolding strlen
cat_short = omega arith

absent : (j : ℕ) → j < 2 → ¬ NameMatches small_fs (120 ∷ []) j
absent zero lt e = ground (arith, e)
absent (suc zero) lt e = ground (arith, e)
absent (suc (suc j)) lt e = absurd (omega arith)

read_dentry_by_name-found_example :
    read_dentry_by_name small_fs (some cat_name) (some dot_entry) ≡ (pos 0, some cat_entry)
read_dentry_by_name-found_example =
    read_dentry_by_name-found small_fs cat_name (omega arith) names 1 dot_entry cat_short
      (omega arith) refl not_before

read_dentry_by_name-missing_example :
    read_dentry_by_name small_fs (some (120 ∷ [])) (some dot_entry) ≡ (minus_one, some dot_entry)
read_dentry_by_name-missing_example =
    read_dentry_by_name-missing small_fs (120 ∷ []) (omega arith) names dot_entry absent

-- Four bytes are left behind byte 2, and the request takes one more.
read_data-inside_example :
    read_data small_fs 1 2 false (pos 10) ≡ (pos 4, slice small_fs (inode_of_length 6) 2 5)
read_data-inside_example =
    read_data-inside small_fs 1 2 10 (omega arith) (omega arith) (omega arith)
      (λ j le lt. omega arith)

read_data-past_example :
    read_data small_fs 1 7 false (pos 3) ≡ (pos 3, slice small_fs (inode_of_length 6) 7 3)
read_data-past_example =
    read_data-past small_fs 1 7 3 (omega arith) (omega arith) (omega arith) (λ j le lt. omega arith)

read_data-bad_block_example :
    read_data short_fs 1 0 false (pos 4)
    ≡ (sub_ℕ 0 1, slice short_fs (short_fs.image.inode_at 2) 0 0)
read_data-bad_block_example =
    read_data-bad_block short_fs 1 0 4 (omega arith) (omega arith) 0 (omega arith) (omega arith)
      (λ j le lt. absurd (omega arith)) (λ h. absurd (omega arith))

-- "cat  a b\n"
parse_command_lem_example :
    parse_command (32 ∷ 99 ∷ 97 ∷ 116 ∷ 32 ∷ 32 ∷ 97 ∷ 32 ∷ 98 ∷ 10 ∷ [])
    ≡ (take 32 cat_name ++ 0 ∷ [], 97 ∷ 32 ∷ 98 ∷ 0 ∷ [])
parse_command_lem_example =
    parse_command_lem 1 2 10 cat_name (97 ∷ 32 ∷ 98 ∷ []) [] (omega arith) (ground arith)
      (omega arith) (omega arith) (inl (omega arith)) (inl refl)

check_validity_iff_example :
    (check_validity small_fs (1 ∷ 2 ∷ 3 ∷ 4 ∷ []) cat_entry ≡ pos 0)
    ↔ ((cat_entry.file_type ≡ 2) × (slice small_fs (inode_of_length 6) 0 4 ≡ exec_head))
check_validity_iff_example =
    check_validity_iff small_fs cat_entry 1 2 3 4 (omega arith) (omega arith) (λ j lt. omega arith)
      (λ j. ground arith)

-- Descriptor 2 stands at byte 2 of the file.
abbrev reading : FileArray
reading fd = record closed_entry { inode_idx = 1; file_position = 2; flags = 1 }

file_read-inside_example :
    file_read small_fs (pos 2) false (pos 3) (some reading)
    ≡ (pos 3, slice small_fs (inode_of_length 6) 2 3, some (moved small_fs 2 3 reading 3))
file_read-inside_example =
    file_read-inside small_fs 2 3 reading (omega arith) (omega arith) (omega arith) (omega arith)
      (omega arith) (λ j le lt. omega arith)

cat_loop_lem_example :
    cat_loop small_fs (pos 2) 5 reading ≡ some (slice small_fs (inode_of_length 6) 2 4)
cat_loop_lem_example =
    cat_loop_lem small_fs 2 (omega arith) (omega arith) 5 reading
      (record {
        node = omega arith;
        within = omega arith;
        small = omega arith;
        blocks = λ j le. omega arith;
      })
      (omega arith)
