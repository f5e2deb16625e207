-- ===== src/Logging/Headers.antt =====
-- base/Logging.cc, the constructor of `Impl`: the beginning of a line, with the texts that the
-- thread keeps.
use dserver.Prelude.{
  ℕ, ◌+◌, ◌-◌, ◌%◌, ◌/◌, ◌≤◌, ◌<◌, ◌≡◌, ◌≢◌, refl, ap, ap₂, ◌∙◌, ◌⊎◌, inl, inr, not, some, List,
  ◌++◌, if◌then◌else◌, ◌==◌, length, replicate, decimal, codes, arith, Bool-cases, length-append,
  length-replicate, length-decimal, take_past, sym, ltb, true,
}
use dserver.LogStream.Lines.{int_of_lem, append_lem}
use dserver.LogStream.{pos, int_of, avail, FixedBuffer, append, empty_buffer, small_buffer}
use dserver.Timestamp.{per_second, Timestamp, padded, snprintf, Tm, date_text}
use dserver.Timestamp.Printing.{IsCivil, length-date_text, length-padded}
use dserver.Logging.{
  LogLevel, level_name, trace, debug, info, warn, error, fatal, ThreadData, tid_text, tid, put_text,
  refresh, fraction_text, format_time,
}

pub length-level_name : (level : LogLevel) → length (level_name level) ≡ 6
length-level_name trace = refl
length-level_name debug = refl
length-level_name info = refl
length-level_name warn = refl
length-level_name error = refl
length-level_name fatal = refl

pub length-tid_text : (n : ℕ) → n < 10000000000 → length (tid_text n) ≤ 11
unfolding padded
length-tid_text n h = omega (
  arith,
  length-append (padded 32 5 n) (codes " "),
  length-append (replicate (5 - length (decimal n)) 32) (decimal n),
  length-replicate {A = ℕ} (5 - length (decimal n)) 32,
  length-decimal 9 n h,
)

length-fraction_text : (n : ℕ) → n < 1000000 → length (fraction_text n) ≡ 9
length-fraction_text n h =
    omega (arith, length-append (padded 48 6 n) (codes "Z "), length-padded 48 5 n h)

-- A text that fits is put whole.
pub put_text_lem :
    (s : FixedBuffer) (str : List ℕ) (len : ℕ)
    → length str ≡ len
    → s.size < 2147483648
    → length s.data_ + len < s.size
    → put_text s str len ≡ some (record s { data_ = s.data_ ++ str })
unfolding put_text
put_text_lem s str len h z k =
    let whole : int_of len ≡ pos (length str) = int_of_lem len (omega arith) ∙ ap pos (sym h) in
    let room : ltb (length str) (avail s) ≡ true = ground (arith, h, k) in
    let put : put_text s str len ≡ some (append s str (int_of len)) = ground (arith, h) in
    put ∙ ap (λ n. some (append s str n)) whole ∙ ap some (append_lem s str) ∙ rw room refl

abbrev pub with_data : List ℕ → FixedBuffer
with_data text = record { size = small_buffer; data_ = text }

module _ (gmtime : ℕ → Tm) (gettid : ℕ) where
  -- The texts that a thread keeps are those of its number and of the second that they were made
  -- for, once they were made.
  pub record IsCached (d : ThreadData) : Type 0 where
    pub time : (d.last_second ≡ 0) ⊎ (d.time_text ≡ date_text (gmtime d.last_second))
    pub thread :
        (d.cached_tid ≡ 0)
        ⊎ ((d.tid_string ≡ tid_text gettid) × (d.tid_string_length ≡ length (tid_text gettid)))

  -- The thread's data after a line at the given second.
  abbrev pub at_second : ThreadData → ℕ → ThreadData
  at_second d seconds = record d { last_second = seconds; time_text = date_text (gmtime seconds) }

  refresh_lem :
      (d : ThreadData) (seconds : ℕ)
      → IsCivil (gmtime seconds)
      → refresh gmtime d seconds ≡ some (at_second d seconds)
  unfolding refresh snprintf
  refresh_lem d seconds c =
      let e = length-date_text (gmtime seconds) c in
      ground (arith, e, take_past 63 (date_text (gmtime seconds)) (omega (arith, e)))

  -- The text of the last second serves again, or is made anew.
  current_lem :
      (d : ThreadData) (seconds : ℕ)
      → IsCached d
      → seconds ≢ 0
      → IsCivil (gmtime seconds)
      → (if not (seconds == d.last_second) then refresh gmtime d seconds else some d)
        ≡ some (at_second d seconds)
  current_lem d seconds h n c = elim (Bool-cases (seconds == d.last_second)) [
    | inl b ↦ elim h.time [
      | inl z ↦ absurd (ground (arith, b, z, n))
      | inr e ↦
          let same : d.last_second ≡ seconds = ground (arith, b) in
          rw b (
            ap₂ (λ at text. some (record d { last_second = at; time_text = text })) same
              (e ∙ ap (λ at. date_text (gmtime at)) same))
    ]
    | inr b ↦ rw b (refresh_lem d seconds c)
  ]

  pub tid_lem :
      (d : ThreadData)
      → IsCached d
      → gettid < 10000000000
      → ((tid gettid d).tid_string ≡ tid_text gettid)
        × ((tid gettid d).tid_string_length ≡ length (tid_text gettid))
        × ((tid gettid d).last_second ≡ d.last_second)
        × ((tid gettid d).time_text ≡ d.time_text)
  unfolding tid snprintf
  tid_lem d h n =
      let fits = take_past 31 (tid_text gettid) (omega (arith, length-tid_text gettid n)) in
      elim (Bool-cases (d.cached_tid == 0)) [
        | inl b ↦ rw b (fits, refl, refl, refl)
        | inr b ↦ elim h.thread [
          | inl z ↦ absurd (ground (arith, b, z))
          | inr (s, l) ↦ rw b (s, l, refl, refl)
        ]
      ]

  -- What a line begins with.
  abbrev pub header_text : Timestamp → LogLevel → List ℕ
  header_text time level =
      ((date_text (gmtime (time.micro_seconds_since_epoch / per_second))
          ++ fraction_text (time.micro_seconds_since_epoch % per_second))
        ++ tid_text gettid)
      ++ level_name level

  pub format_time_lem :
      (d : ThreadData) (time : Timestamp)
      → IsCached d
      → time.micro_seconds_since_epoch / per_second ≢ 0
      → IsCivil (gmtime (time.micro_seconds_since_epoch / per_second))
      → format_time gmtime d time (empty_buffer small_buffer)
        ≡ some (
          at_second d (time.micro_seconds_since_epoch / per_second),
          with_data (
              date_text (gmtime (time.micro_seconds_since_epoch / per_second))
              ++ fraction_text (time.micro_seconds_since_epoch % per_second)),
        )
  unfolding format_time snprintf
  format_time_lem d time h n c =
      let seconds = time.micro_seconds_since_epoch / per_second in
      let date = date_text (gmtime seconds) in
      let fraction = fraction_text (time.micro_seconds_since_epoch % per_second) in
      let e = length-date_text (gmtime seconds) c in
      let f = length-fraction_text (time.micro_seconds_since_epoch % per_second) (omega arith) in
      rw
        (
          current_lem d seconds h n c,
          put_text_lem (empty_buffer small_buffer) date 17 e (omega arith) (omega arith),
          take_past 31 fraction (omega (arith, f)),
          put_text_lem (with_data date) fraction 9 f (omega arith) (omega (arith, e)),
        )
        refl

  pub length-header_text :
      (time : Timestamp) (level : LogLevel)
      → IsCivil (gmtime (time.micro_seconds_since_epoch / per_second))
      → gettid < 10000000000
      → length (header_text time level) ≤ 43
  length-header_text time level c n =
      let date = date_text (gmtime (time.micro_seconds_since_epoch / per_second)) in
      let fraction = fraction_text (time.micro_seconds_since_epoch % per_second) in
      omega (
        arith,
        length-append ((date ++ fraction) ++ tid_text gettid) (level_name level),
        length-append (date ++ fraction) (tid_text gettid),
        length-append date fraction,
        length-date_text (gmtime (time.micro_seconds_since_epoch / per_second)) c,
        length-fraction_text (time.micro_seconds_since_epoch % per_second) (omega arith),
        length-tid_text gettid n,
        length-level_name level,
      )
