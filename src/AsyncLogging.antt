-- ===== src/AsyncLogging.antt =====
-- base/AsyncLogging.h and base/AsyncLogging.cc: the buffers between the threads that log and the
-- thread that writes the file.
-- A `unique_ptr` is an option. A null pointer is not put into a vector, since the thread that
-- writes reads through all of them: it is `none`, as a failed assert is.
pub mod Delivery
pub mod Invariant
pub mod Flushing
pub mod Recycling
pub mod Stopping
pub mod Turns
use dserver.Prelude.{
  ℕ, suc, ◌+◌, ◌≡◌, Bool, true, false, not, ◌&&◌, ◌||◌, Option, none, some, List, [], ◌∷◌, ◌++◌,
  ltb, leb, ◌==◌, if◌then◌else◌, ◌>>=◌, ◌>>◌, assert, length, take,
}
use dserver.LogStream.{pos, FixedBuffer, empty_buffer, avail, append, reset, large_buffer}

-- Where the thread that writes is: at `while (running_)`, in the critical section, behind it, or
-- behind the loop.
pub data Place : Type 0 where
  at_test in_section behind_section ended : Place

pub record AsyncLogging : Type 0 where
  pub running : Bool
  pub current_buffer : Option FixedBuffer
  pub next_buffer : Option FixedBuffer
  pub buffers : List FixedBuffer
  -- The variables of `threadFunc`, and what it has given to the log file.
  pub place : Place
  pub new_buffer1 : Option FixedBuffer
  pub new_buffer2 : Option FixedBuffer
  pub buffers_to_write : List FixedBuffer
  pub output : List ℕ
  -- Whether buffers were dropped.
  pub has_dropped : Bool

-- `new Buffer`.
abbrev pub new_buffer : FixedBuffer
new_buffer = empty_buffer large_buffer

-- The constructor, `start()`, and the beginning of `threadFunc`.
unfoldable pub started : AsyncLogging
started = record {
  running = true;
  current_buffer = some new_buffer;
  next_buffer = some new_buffer;
  buffers = [];
  place = at_test;
  new_buffer1 = some new_buffer;
  new_buffer2 = some new_buffer;
  buffers_to_write = [];
  output = [];
  has_dropped = false;
}

-- `nextBuffer_` if there is one, and a new buffer if not.
abbrev pub spare : Option FixedBuffer → FixedBuffer
spare (some b) = b
spare none = new_buffer

-- `append`, where `len` is the number of bytes of the line, as the stream that it comes from gives it.
unfoldable pub append_line : AsyncLogging → List ℕ → Option AsyncLogging
append_line a line = do
  b ← a.current_buffer
  some (
      if ltb (length line) (avail b)
      then record a { current_buffer = some (append b line (pos (length line))) }
      else record a {
        buffers = a.buffers ++ (b ∷ []);
        current_buffer = some (append (spare a.next_buffer) line (pos (length line)));
        next_buffer = none;
      })

unfoldable pub stop : AsyncLogging → AsyncLogging
stop a = record a { running = false }

-- `newBuffer1 && newBuffer1->length() == 0`.
abbrev pub is_reset : Option FixedBuffer → Bool
is_reset none = false
is_reset (some b) = length b.data_ == 0

-- `while (running_)` and the asserts behind it.
unfoldable pub test_running : AsyncLogging → Option AsyncLogging
test_running a =
    if a.running
    then (do
      assert (is_reset a.new_buffer1)
      assert (is_reset a.new_buffer2)
      assert (length a.buffers_to_write == 0)
      some (record a { place = in_section }))
    else some (record a { place = ended })

-- `if (!nextBuffer_)`: the two pointers after it.
abbrev pub give_spare :
    Option FixedBuffer → Option FixedBuffer → Option FixedBuffer × Option FixedBuffer
give_spare none new2 = (new2, none)
give_spare (some n) new2 = (some n, new2)

-- The critical section, after the wait.
unfoldable pub swap_buffers : AsyncLogging → Option AsyncLogging
swap_buffers a = do
  b ← a.current_buffer
  let given = give_spare a.next_buffer a.new_buffer2
  some (record a {
    current_buffer = a.new_buffer1;
    new_buffer1 = none;
    buffers_to_write = a.buffers ++ (b ∷ []);
    buffers = [];
    next_buffer = given.0;
    new_buffer2 = given.1;
    place = behind_section;
  })

abbrev pub all_data : List FixedBuffer → List ℕ
all_data [] = []
all_data (b ∷ bs) = b.data_ ++ all_data bs

-- Of more than 25 buffers all but two are dropped, with a message, and the rest is written.
unfoldable pub write_buffers : AsyncLogging → List ℕ → AsyncLogging
write_buffers a message =
    let overloaded = ltb 25 (length a.buffers_to_write) in
    let kept = if overloaded then take 2 a.buffers_to_write else a.buffers_to_write in
    record a {
      output = a.output ++ ((if overloaded then message else []) ++ all_data kept);
      buffers_to_write = kept;
      has_dropped = a.has_dropped || overloaded;
    }

-- `buffersToWrite.back()` and the buffers before it.
abbrev pub back : List FixedBuffer → Option (List FixedBuffer × FixedBuffer)
back [] = none
back (b ∷ []) = some ([], b)
back (b ∷ c ∷ bs) = do rest ← back (c ∷ bs); some (b ∷ rest.0, rest.1)

-- A new buffer that was given away is replaced by the last of the buffers.
unfoldable pub refill :
    Option FixedBuffer → List FixedBuffer → Option (Option FixedBuffer × List FixedBuffer)
refill (some b) buffers = some (some b, buffers)
refill none buffers = do last ← back buffers; some (some (reset last.1), last.0)

unfoldable pub recycle : AsyncLogging → Option AsyncLogging
recycle a = do
  let two =
      if ltb 2 (length a.buffers_to_write) then take 2 a.buffers_to_write else a.buffers_to_write
  first ← refill a.new_buffer1 two
  second ← refill a.new_buffer2 first.1
  some (record a {
    new_buffer1 = first.0;
    new_buffer2 = second.0;
    buffers_to_write = [];
    place = at_test;
  })

-- Behind the critical section.
unfoldable pub finish : AsyncLogging → List ℕ → Option AsyncLogging
finish a message = do
  assert (not (length a.buffers_to_write == 0))
  recycle (write_buffers a message)

-- The next step of the thread that writes.
unfoldable pub thread_turn_at : AsyncLogging → Place → List ℕ → Option AsyncLogging
thread_turn_at a at_test message = test_running a
thread_turn_at a in_section message = swap_buffers a
thread_turn_at a behind_section message = finish a message
thread_turn_at a ended message = some a

unfoldable pub thread_turn : AsyncLogging → List ℕ → Option AsyncLogging
thread_turn a message = thread_turn_at a a.place message

-- What the threads do, in any order: a line is logged, the thread that writes takes a step, with
-- the message that it would print, or the logging is stopped.
pub data Action : Type 0 where
  logs : List ℕ → Action
  turns : List ℕ → Action
  stops : Action

unfoldable pub act : AsyncLogging → Action → Option AsyncLogging
act a (logs line) = append_line a line
act a (turns message) = thread_turn a message
act a stops = some (stop a)

unfoldable pub act_all : AsyncLogging → List Action → Option AsyncLogging
act_all a [] = some a
act_all a (action ∷ actions) = act a action >>= λ a'. act_all a' actions
