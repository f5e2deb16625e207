-- ===== src/Timestamp.antt =====
-- base/Timestamp.h and base/Timestamp.cc: a time in microseconds, not before the epoch, and its
-- texts.
pub mod Printing
use dserver.Prelude.{
  ℕ, ◌+◌, ◌-◌, ◌*◌, ◌%◌, ◌/◌, Bool, List, ◌∷◌, ◌++◌, if◌then◌else◌, ltb, codes, decimal, length,
  take, replicate,
}

-- kMicroSecondsPerSecond.
abbrev pub per_second : ℕ
per_second = 1000000

pub record Timestamp : Type 0 where
  pub micro_seconds_since_epoch : ℕ

abbrev pub invalid : Timestamp
invalid = record { micro_seconds_since_epoch = 0 }

unfoldable pub valid : Timestamp → Bool
valid t = ltb 0 t.micro_seconds_since_epoch

unfoldable pub seconds_since_epoch : Timestamp → ℕ
seconds_since_epoch t = t.micro_seconds_since_epoch / per_second

unfoldable pub from_unix_time : ℕ → ℕ → Timestamp
from_unix_time t microseconds = record { micro_seconds_since_epoch = t * per_second + microseconds }

-- `%4d`, `%02d` and `%06d` of a number that is not negative: the fill and the width.
unfoldable pub padded : ℕ → ℕ → ℕ → List ℕ
padded fill width n = replicate (width - length (decimal n)) fill ++ decimal n

-- What `snprintf` leaves in a block of the given size, before its NUL.
unfoldable pub snprintf : ℕ → List ℕ → List ℕ
snprintf size text = take (size - 1) text

unfoldable pub to_string : Timestamp → List ℕ
to_string t = snprintf 32 (
    decimal (t.micro_seconds_since_epoch / per_second)
    ++ (codes "." ++ padded 48 6 (t.micro_seconds_since_epoch % per_second)))

-- `struct tm`, as `gmtime_r` fills it.
pub record Tm : Type 0 where
  pub tm_year : ℕ
  pub tm_mon : ℕ
  pub tm_mday : ℕ
  pub tm_hour : ℕ
  pub tm_min : ℕ
  pub tm_sec : ℕ

-- "%4d%02d%02d %02d:%02d:%02d".
unfoldable pub date_text : Tm → List ℕ
date_text tm =
    padded 32 4 (tm.tm_year + 1900)
    ++ (padded 48 2 (tm.tm_mon + 1)
        ++ (padded 48 2 tm.tm_mday
            ++ (codes " "
                ++ (padded 48 2 tm.tm_hour
                    ++ (codes ":"
                        ++ (padded 48 2 tm.tm_min ++ (codes ":" ++ padded 48 2 tm.tm_sec)))))))

unfoldable pub to_formatted_string : (ℕ → Tm) → Bool → Timestamp → List ℕ
to_formatted_string gmtime show_microseconds t =
    let date = date_text (gmtime (t.micro_seconds_since_epoch / per_second)) in
    let microseconds = t.micro_seconds_since_epoch % per_second in
    if show_microseconds
    then snprintf 64 (date ++ (codes "." ++ padded 48 6 microseconds))
    else snprintf 64 date
