-- ===== src/Tests/LogFiles.antt =====
-- A log file of base/LogFile.h that is rolled after three bytes.
use dserver.Prelude.{ℕ, ◌<◌, ◌≤◌, ◌≡◌, refl, [], ◌++◌, codes, arith, length}
use dserver.LogFile.{LogFile, new_file, write, write_rest, append_file, append_unlocked, roll_file}
use dserver.LogFile.Rolling.{bytes_of, append_unlocked_lem}

abbrev first_file : LogFile
first_file = record {
  roll_size = 3;
  start = 0;
  last_roll = 100;
  last_flush = 100;
  file = new_file;
  closed = [];
}

-- A call takes two bytes at most.
abbrev two_bytes : ℕ → ℕ
two_bytes k = 2

two_bytes_lem : (k : ℕ) → 0 < two_bytes k
two_bytes_lem k = omega arith

append_unlocked_example :
    let l = append_unlocked first_file (codes "line\n") two_bytes 101 in
    (bytes_of l ≡ codes "line\n") × (l.last_roll ≡ 101) × (l.file.written_bytes ≡ 0)
unfolding append_unlocked append_file write write_rest roll_file
append_unlocked_example = (refl, refl, refl)

append_unlocked_lem_example :
    let l = append_unlocked first_file (codes "line\n") two_bytes 101 in
    (bytes_of l ≡ [] ++ codes "line\n")
    × (first_file.file.written_bytes ≡ 0 → l.file.written_bytes ≡ length l.file.stream)
    × (100 < 101 → l.file.written_bytes ≤ 3)
append_unlocked_lem_example =
    append_unlocked_lem two_bytes two_bytes_lem first_file (codes "line\n") 101
