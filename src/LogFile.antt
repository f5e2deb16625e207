-- ===== src/LogFile.antt =====
-- base/LogFile.h, base/LogFile.cc, base/FileUtil.h and base/FileUtil.cc: the log files.
-- What `fwrite_unlocked` takes of an offer is an argument: at most `answer k` bytes in its call `k`.
pub mod Rolling
use Prim.Native.Nat.{min}
use dserver.Prelude.{
  ℕ, zero, suc, ◌+◌, ◌*◌, ◌/◌, Bool, true, false, List, [], ◌∷◌, ◌++◌, ltb, ◌==◌, if◌then◌else◌,
  length, take, drop,
}

pub record AppendFile : Type 0 where
  -- What the stream was given.
  pub stream : List ℕ
  pub written_bytes : ℕ

-- The constructor, on a file that is not there yet.
abbrev pub new_file : AppendFile
new_file = record { stream = []; written_bytes = 0 }

-- `write`: what is left of the bytes.
unfoldable pub write : AppendFile → List ℕ → ℕ → AppendFile × List ℕ
write f bytes count =
    let x = min count (length bytes) in
    (record f { stream = f.stream ++ take x bytes }, drop x bytes)

-- The loop of `append` from its call `k` on, which ends when nothing is left or nothing is taken;
-- the fuel is more than the bytes that are left.
unfoldable pub write_rest : ℕ → (ℕ → ℕ) → ℕ → AppendFile → List ℕ → AppendFile
write_rest zero answer k f rest = f
write_rest (suc fuel) answer k f rest =
    let done = write f rest (answer k) in
    let more = write_rest fuel answer (suc k) done.0 done.1 in
    if length rest == 0 then f else if min (answer k) (length rest) == 0 then done.0 else more

unfoldable pub append_file : AppendFile → List ℕ → (ℕ → ℕ) → AppendFile
append_file f bytes answer =
    let done = write f bytes (answer 0) in
    let all = write_rest (suc (length bytes)) answer 1 done.0 done.1 in
    record all { written_bytes = all.written_bytes + length bytes }

pub record LogFile : Type 0 where
  pub roll_size : ℕ
  pub start : ℕ
  pub last_roll : ℕ
  pub last_flush : ℕ
  pub file : AppendFile
  -- The files that were closed, from the first on.
  pub closed : List AppendFile

-- kRollPerSeconds_.
abbrev pub roll_per_seconds : ℕ
roll_per_seconds = 86400

-- `rollFile` at the time `now`, whose file name is then another one.
unfoldable pub roll_file : LogFile → ℕ → Bool × LogFile
roll_file l now =
    if ltb l.last_roll now
    then (
      true,
      record l {
        last_roll = now;
        last_flush = now;
        start = now / roll_per_seconds * roll_per_seconds;
        closed = l.closed ++ (l.file ∷ []);
        file = new_file;
      },
    )
    else (false, l)

unfoldable pub append_unlocked : LogFile → List ℕ → (ℕ → ℕ) → ℕ → LogFile
append_unlocked l line answer now =
    let appended : LogFile = record l { file = append_file l.file line answer } in
    if ltb appended.roll_size appended.file.written_bytes
    then (roll_file appended now).1
    else appended
