-- ===== src/Tests/LogCalls.antt =====
-- Macros of base/Logging.h in a thread, and times that are printed.
use dserver.Prelude.{
  ℕ, ◌+◌, ◌≤◌, ◌≢◌, length, ◌/◌, ◌%◌, ◌≡◌, refl, some, List, [], ◌∷◌, codes, arith, digits, decimal,
}
use dserver.LogStream.{pos, integer_item, string_item, convert, convert_digits}
use dserver.Timestamp.{Tm, padded, date_text}
use dserver.Timestamp.Printing.{IsCivil}
use dserver.Logging.{
  LogMacro, log_debug, log_info, log_warn, log_syserr, info, source_file, after_slash, new_thread,
  LogCall, log_all, is_logged,
}
use dserver.Logging.Lines.{line_text, IsFitting, AreFitting, log_all-lines}

-- The time of day of the first days of 2020.
abbrev gmtime : ℕ → Tm
gmtime s = record {
  tm_year = 120;
  tm_mon = 0;
  tm_mday = 1;
  tm_hour = s / 3600 % 24;
  tm_min = s / 60 % 60;
  tm_sec = s % 60;
}

gmtime-IsCivil : (s : ℕ) → IsCivil (gmtime s)
gmtime-IsCivil s = record {
  year = omega arith;
  month = omega arith;
  day = omega arith;
  hour = omega arith;
  minute = omega arith;
  second = omega arith;
}

abbrev strerror : ℕ → List ℕ
strerror n = codes "No such file"

abbrev call : LogMacro → ℕ → LogCall
call macro micros = record {
  macro = macro;
  file = codes "net/Poller.cc";
  line = 17;
  func = codes "poll";
  time = record { micro_seconds_since_epoch = micros };
  errno = 2;
  items = string_item (some (codes "n=")) ∷ integer_item (pos 5) ∷ [];
}

-- Two lines in one second, one below the level, and one in the next second.
abbrev calls : List LogCall
calls =
    call log_info 61000005
    ∷ call log_syserr 61000042
    ∷ call log_debug 61000043
    ∷ call log_warn 62000000
    ∷ []

line_text_example :
    line_text gmtime strerror 42 (call log_syserr 61000042)
    ≡ codes "20200101 00:01:01.000042Z    42 ERROR No such file (errno=2) n=5 - Poller.cc:17\n"
unfolding padded decimal digits date_text convert convert_digits source_file after_slash
line_text_example = refl

call-IsFitting :
    (macro : LogMacro) (micros : ℕ)
    → micros / 1000000 ≢ 0
    → length (line_text gmtime strerror 42 (call macro micros)) + 32 ≤ 4000
    → IsFitting gmtime strerror 42 (call macro micros)
call-IsFitting macro micros late fits = record {
  late = late;
  civil = gmtime-IsCivil (micros / 1000000);
  words = (omega arith, (omega arith, tt));
  errno_word = omega arith;
  line_word = omega arith;
  fits = fits;
}

calls-AreFitting : AreFitting gmtime strerror 42 calls
unfolding padded decimal digits date_text convert convert_digits source_file after_slash
calls-AreFitting = (
  call-IsFitting log_info 61000005 (omega arith) (omega arith),
  (
    call-IsFitting log_syserr 61000042 (omega arith) (omega arith),
    (
      call-IsFitting log_debug 61000043 (omega arith) (omega arith),
      (call-IsFitting log_warn 62000000 (omega arith) (omega arith), tt),
    ),
  ),
)

log_all-lines_example :
    log_all gmtime strerror 42 info new_thread calls
    ≡ some (
        codes "20200101 00:01:01.000005Z    42 INFO  n=5 - Poller.cc:17\n"
        ∷ codes "20200101 00:01:01.000042Z    42 ERROR No such file (errno=2) n=5 - Poller.cc:17\n"
        ∷ codes "20200101 00:01:02.000000Z    42 WARN  n=5 - Poller.cc:17\n"
        ∷ [])
unfolding padded decimal digits date_text convert convert_digits source_file after_slash is_logged
log_all-lines_example = log_all-lines gmtime strerror 42 info calls calls-AreFitting (omega arith)
