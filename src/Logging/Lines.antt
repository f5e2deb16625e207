-- ===== src/Logging/Lines.antt =====
-- base/Logging.cc: what a thread's log lines are, whatever it logged before.
use dserver.Prelude.{
  ℕ, ◌+◌, ◌%◌, ◌/◌, ◌≤◌, ◌<◌, ◌≡◌, ◌≢◌, refl, sym, ap, ◌∙◌, inl, inr, some, List, [], ◌∷◌, ◌++◌,
  if◌then◌else◌, length, arith, Bool-cases, length-append, append_assoc,
}
use dserver.LogStream.{pos, Item, integer_item, char_item}
use dserver.LogStream.Lines.{texts, AreWordItems}
use dserver.Timestamp.{per_second, Tm, date_text}
use dserver.Timestamp.Printing.{IsCivil}
use dserver.Logging.{
  LogLevel, level_of, level_name, is_fatal, is_logged, saved_errno, function_items, source_file,
  ThreadData, new_thread, tid, LogCall, error_items, start_line, finish_items, write_line, log_all,
  tid_text, fraction_text,
}
use dserver.Logging.Headers.{
  IsCached, header_text, with_data, at_second, format_time_lem, tid_lem, put_text_lem,
  length-header_text, length-level_name,
}
use dserver.Logging.Items.{
  put_all_full, function_items-AreWordItems, saved_errno_le, error_items-AreWordItems,
}

module _ (gmtime : ℕ → Tm) (strerror : ℕ → List ℕ) (gettid : ℕ) where
  abbrev error_part : LogCall → List Item
  error_part c = error_items strerror (saved_errno c.macro c.errno)

  -- The whole line: its time, the number of the thread, its level, and then what went wrong in the
  -- system, the function, the message and the place in the source.
  abbrev pub line_text : LogCall → List ℕ
  line_text c =
      header_text gmtime gettid c.time (level_of c.macro)
      ++ (texts (error_part c)
          ++ (texts (function_items c.macro c.func) ++ (texts c.items ++ texts (finish_items c))))

  -- A call of a macro after the first second of the epoch, whose line fits its buffer with 32 bytes
  -- to spare.
  pub record IsFitting (c : LogCall) : Type 0 where
    pub late : c.time.micro_seconds_since_epoch / per_second ≢ 0
    pub civil : IsCivil (gmtime (c.time.micro_seconds_since_epoch / per_second))
    pub words : AreWordItems c.items
    pub errno_word : c.errno < 18446744073709551616
    pub line_word : c.line < 18446744073709551616
    pub fits : length (line_text c) + 32 ≤ 4000

  -- The parts of a line are shorter than the line.
  parts_lem :
      (c : LogCall)
      → length (line_text c)
        ≡ length (header_text gmtime gettid c.time (level_of c.macro))
          + (length (texts (error_part c))
              + (length (texts (function_items c.macro c.func))
                  + (length (texts c.items) + length (texts (finish_items c)))))
  parts_lem c =
      let header = header_text gmtime gettid c.time (level_of c.macro) in
      let errors = texts (error_part c) in
      let function = texts (function_items c.macro c.func) in
      let place = texts (finish_items c) in
      length-append header (errors ++ (function ++ (texts c.items ++ place)))
      ∙ ap (λ m. length header + m)
          (length-append errors (function ++ (texts c.items ++ place))
            ∙ ap (λ m. length errors + m)
                (length-append function (texts c.items ++ place)
                  ∙ ap (λ m. length function + m) (length-append (texts c.items) place)))

  -- The thread's data after a line.
  abbrev after_line : ThreadData → LogCall → ThreadData
  after_line d c =
      tid gettid (at_second gmtime gettid d (c.time.micro_seconds_since_epoch / per_second))

  start_line_lem :
      (d : ThreadData) (c : LogCall)
      → IsCached gmtime gettid d
      → IsFitting c
      → gettid < 10000000000
      → (start_line gmtime strerror gettid d c.time (level_of c.macro) (saved_errno c.macro c.errno)
          ≡ some (
            after_line d c,
            with_data (header_text gmtime gettid c.time (level_of c.macro) ++ texts (error_part c)),
          ))
        × IsCached gmtime gettid (after_line d c)
  unfolding start_line
  start_line_lem d c h k n =
      let d1 = at_second gmtime gettid d (c.time.micro_seconds_since_epoch / per_second) in
      let date = date_text (gmtime (c.time.micro_seconds_since_epoch / per_second)) in
      let fraction = fraction_text (c.time.micro_seconds_since_epoch % per_second) in
      let level = level_of c.macro in
      let header = header_text gmtime gettid c.time level in
      let short = length-header_text gmtime gettid c.time level k.civil n in
      let (str, len, at, kept) =
        tid_lem gmtime gettid d1 (record { time = inr refl; thread = h.thread }) n in
      (
        rw
            (
              format_time_lem gmtime gettid d c.time h k.late k.civil,
              str,
              len,
              put_text_lem (with_data (date ++ fraction)) (tid_text gettid)
                  (length (tid_text gettid)) refl (omega arith)
                  (omega (
                    arith,
                    short,
                    length-append ((date ++ fraction) ++ tid_text gettid) (level_name level),
                    length-append (date ++ fraction) (tid_text gettid),
                  )),
              put_text_lem (with_data ((date ++ fraction) ++ tid_text gettid)) (level_name level) 6
                  (length-level_name level) (omega arith)
                  (omega (
                    arith,
                    short,
                    length-level_name level,
                    length-append ((date ++ fraction) ++ tid_text gettid) (level_name level),
                  )),
              put_all_full header (error_part c)
                  (error_items-AreWordItems strerror (saved_errno c.macro c.errno)
                    (omega (arith, saved_errno_le c.macro c.errno, k.errno_word))
                    (omega (arith, parts_lem c, k.fits)))
                  (omega (arith, parts_lem c, k.fits)),
            )
            refl,
        record {
          time = inr (kept ∙ ap (λ s. date_text (gmtime s)) (sym at));
          thread = inr (str, len);
        },
      )

  source_file_fits : (c : LogCall) → IsFitting c → length (source_file c.file) < 2147483648
  source_file_fits c k =
      let place = char_item 58 ∷ integer_item (pos c.line) ∷ char_item 10 ∷ [] in
      omega (arith, parts_lem c, k.fits, length-append (source_file c.file) (texts place))

  write_line_lem :
      (d : ThreadData) (c : LogCall)
      → IsCached gmtime gettid d
      → IsFitting c
      → gettid < 10000000000
      → (write_line gmtime strerror gettid d c ≡ some (after_line d c, line_text c))
        × IsCached gmtime gettid (after_line d c)
  unfolding write_line
  write_line_lem d c h k n =
      let header = header_text gmtime gettid c.time (level_of c.macro) in
      let errors = texts (error_part c) in
      let function = texts (function_items c.macro c.func) in
      let place = texts (finish_items c) in
      let parts = parts_lem c in
      let (e, cached) = start_line_lem d c h k n in
      (
        rw
            (
              e,
              put_all_full (header ++ errors) (function_items c.macro c.func)
                  (function_items-AreWordItems c.macro c.func (omega (arith, parts, k.fits)))
                  (omega (arith, parts, k.fits, length-append header errors)),
              put_all_full ((header ++ errors) ++ function) c.items k.words (
                  omega (
                    arith,
                    parts,
                    k.fits,
                    length-append header errors,
                    length-append (header ++ errors) function,
                  )),
              put_all_full (((header ++ errors) ++ function) ++ texts c.items) (finish_items c)
                  (omega arith, (source_file_fits c k, (tt, (k.line_word, (tt, tt)))))
                  (omega (
                    arith,
                    parts,
                    k.fits,
                    length-append header errors,
                    length-append (header ++ errors) function,
                    length-append ((header ++ errors) ++ function) (texts c.items),
                  )),
            )
            (ap (λ bytes. some (after_line d c, bytes))
              (append_assoc ((header ++ errors) ++ function) (texts c.items) place
                ∙ append_assoc (header ++ errors) function (texts c.items ++ place)
                ∙ append_assoc header errors (function ++ (texts c.items ++ place)))),
        cached,
      )

  -- The lines that the given calls are to output.
  abbrev pub lines : LogLevel → List LogCall → List (List ℕ)
  lines g [] = []
  lines g (c ∷ cs) =
      let others = lines g cs in
      let logged = line_text c ∷ (if is_fatal (level_of c.macro) then [] else others) in
      if is_logged g c.macro then logged else others

  abbrev pub AreFitting : List LogCall → Type 0
  AreFitting [] = Unit {0}
  AreFitting (c ∷ cs) = IsFitting c × AreFitting cs

  log_all_from :
      (g : LogLevel) (d : ThreadData) (cs : List LogCall)
      → IsCached gmtime gettid d
      → AreFitting cs
      → gettid < 10000000000
      → log_all gmtime strerror gettid g d cs ≡ some (lines g cs)
  unfolding log_all
  log_all_from g d [] h k n = refl
  log_all_from g d (c ∷ cs) h (k, ks) n =
      let (e, cached) = write_line_lem d c h k n in
      let rest = log_all_from g (after_line d c) cs cached ks n in
      elim (Bool-cases (is_logged g c.macro)) [
        | inl b ↦ elim (Bool-cases (is_fatal (level_of c.macro))) [
          | inl f ↦ rw (b, f, e) refl
          | inr f ↦ rw (b, f, e, rest) refl
        ]
        | inr b ↦ rw b (log_all_from g d cs h ks n)
      ]

  -- From its start, a thread whose number has at most ten digits outputs one line for each call
  -- that the test in its macro lets through, in order and until a fatal one, and no assert fails. Each line is whole, with the time of its own call: the texts that the thread keeps for
  -- the last second and for its number never show. This is for calls after the first second of
  -- the epoch and before the year 10000 whose lines fit their buffers with 32 bytes to spare.
  pub log_all-lines :
      (g : LogLevel) (cs : List LogCall)
      → AreFitting cs
      → gettid < 10000000000
      → log_all gmtime strerror gettid g new_thread cs ≡ some (lines g cs)
  log_all-lines g cs ks n =
      log_all_from g new_thread cs (record { time = inl refl; thread = inl refl }) ks n
