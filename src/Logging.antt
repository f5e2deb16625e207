-- ===== src/Logging.antt =====
-- base/Logging.h, base/Logging.cc and base/CurrentThread.h: a log line, from its macro to the
-- output. The data that is local to the thread keeps the text of the last second and of the
-- thread's number. What gettid, gmtime_r and strerror_r give are arguments.
mod Levels
pub mod Headers
pub mod Items
pub mod Lines
unfoldable pub use Levels.*
use dserver.Prelude.{
  ℕ, Bool, true, false, not, Option, none, some, List, [], ◌∷◌, ◌++◌, ◌/◌, ◌%◌, if◌then◌else◌, ◌==◌,
  leb, ◌>>=◌, ◌>>◌, assert, codes, length,
}
use dserver.Timestamp.{per_second, Timestamp, padded, snprintf, Tm, date_text}
use dserver.LogStream.{
  pos, int_of, FixedBuffer, empty_buffer, small_buffer, append, Item, integer_item, char_item,
  string_item,
}
use dserver.LogStream.Lines.{put_all}

-- The data that is local to a thread. A C string is its bytes before the NUL.
pub record ThreadData : Type 0 where
  pub last_second : ℕ
  pub time_text : List ℕ
  pub cached_tid : ℕ
  pub tid_string : List ℕ
  pub tid_string_length : ℕ

abbrev pub new_thread : ThreadData
new_thread = record {
  last_second = 0;
  time_text = [];
  cached_tid = 0;
  tid_string = [];
  tid_string_length = 6;
}

-- "%5d ".
abbrev pub tid_text : ℕ → List ℕ
tid_text n = padded 32 5 n ++ codes " "

-- `tid()`.
unfoldable pub tid : ℕ → ThreadData → ThreadData
tid gettid d =
    if d.cached_tid == 0
    then record d {
      cached_tid = gettid;
      tid_string = snprintf 32 (tid_text gettid);
      tid_string_length = length (tid_text gettid);
    }
    else d

-- `stream_ << T(str, len)`.
unfoldable pub put_text : FixedBuffer → List ℕ → ℕ → Option FixedBuffer
put_text s str len = do assert (length str == len); some (append s str (int_of len))

-- A new second.
unfoldable pub refresh : (ℕ → Tm) → ThreadData → ℕ → Option ThreadData
refresh gmtime d seconds = do
  assert (length (date_text (gmtime seconds)) == 17)
  some (record d { last_second = seconds; time_text = snprintf 64 (date_text (gmtime seconds)) })

abbrev pub fraction_text : ℕ → List ℕ
fraction_text microseconds = codes "." ++ (padded 48 6 microseconds ++ codes "Z ")

unfoldable pub format_time :
    (ℕ → Tm) → ThreadData → Timestamp → FixedBuffer → Option (ThreadData × FixedBuffer)
format_time gmtime d time stream = do
  let seconds = time.micro_seconds_since_epoch / per_second
  let microseconds = time.micro_seconds_since_epoch % per_second
  d' ← if not (seconds == d.last_second) then refresh gmtime d seconds else some d
  s1 ← put_text stream d'.time_text 17
  s2 ← put_text s1 (snprintf 32 (fraction_text microseconds)) 9
  some (d', s2)

-- A use of a macro: `time_` is the time at which it runs, and `items` what is put into its stream.
pub record LogCall : Type 0 where
  pub macro : LogMacro
  pub file : List ℕ
  pub line : ℕ
  pub func : List ℕ
  pub time : Timestamp
  pub errno : ℕ
  pub items : List Item

abbrev pub error_items : (ℕ → List ℕ) → ℕ → List Item
error_items strerror n =
    if n == 0
    then []
    else string_item (some (strerror n))
      ∷ string_item (some (codes " (errno="))
      ∷ integer_item (pos n)
      ∷ string_item (some (codes ") "))
      ∷ []

abbrev pub finish_items : LogCall → List Item
finish_items c =
    string_item (some (codes " - "))
    ∷ string_item (some (source_file c.file))
    ∷ char_item 58
    ∷ integer_item (pos c.line)
    ∷ char_item 10
    ∷ []

module _ (gmtime : ℕ → Tm) (strerror : ℕ → List ℕ) (gettid : ℕ) where
  -- The constructor of `Impl`.
  unfoldable pub start_line :
      ThreadData → Timestamp → LogLevel → ℕ → Option (ThreadData × FixedBuffer)
  start_line d time level errno = do
    (d1, s1) ← format_time gmtime d time (empty_buffer small_buffer)
    let d2 = tid gettid d1
    s2 ← put_text s1 d2.tid_string d2.tid_string_length
    s3 ← put_text s2 (level_name level) 6
    s4 ← put_all s3 (error_items strerror errno)
    some (d2, s4)

  -- A line that is logged: the constructor of `Logger`, what is put into its stream, and the
  -- destructor, which gives the text to `g_output` and aborts after a fatal one.
  unfoldable pub write_line : ThreadData → LogCall → Option (ThreadData × List ℕ)
  write_line d c = do
    (d', s) ← start_line d c.time (level_of c.macro) (saved_errno c.macro c.errno)
    s1 ← put_all s (function_items c.macro c.func)
    s2 ← put_all s1 c.items
    s3 ← put_all s2 (finish_items c)
    some (d', s3.data_)

  -- A run of macros at one level of the library, until one aborts: what `g_output` was given.
  unfoldable pub log_all : LogLevel → ThreadData → List LogCall → Option (List (List ℕ))
  log_all g d [] = some []
  log_all g d (c ∷ cs) =
      let skipped = log_all g d cs in
      let logged = write_line d c >>= λ p.
      let others = log_all g p.0 cs >>= λ texts. some (p.1 ∷ texts) in
      (if is_fatal (level_of c.macro) then some (p.1 ∷ []) else others) in
      if is_logged g c.macro then logged else skipped
