-- ===== src/TcpConnection.antt =====
-- net/TcpConnection.cc and net/TcpConnection.h: a connection over its two buffers, its channel in
-- the loop's poller, and the tasks that it queues in the loop.
pub mod Draining
pub mod Invariant
pub mod Lifecycle
pub mod Saving
pub mod Sending
pub mod Steps
pub mod Stream
pub mod Writing
use dserver.Prelude.{
  ℕ, Bool, true, false, not, ◌&&◌, ◌||◌, Option, none, some, List, [], ◌∷◌, ◌++◌, ltb, leb, ◌==◌,
  if◌then◌else◌, ◌>>=◌, ◌>>◌, assert, length, take, drop, add_size, sub_size,
}
use dserver.Buffer.{
  Buffer, readable_bytes, append, retrieve, retrieve_all, ReadResult, received, failed, read_fd,
}
use dserver.Buffer.Contents.{contents}
use dserver.Channel.{
  Channel, Switch, enable_reading, disable_reading, enable_writing, disable_writing, disable_all,
  is_writing, is_reading,
}
use dserver.Poller.{Epoll, Poller, set_at, switch_channel, remove}

pub data State : Type 0 where
  disconnected connecting connected disconnecting : State

abbrev pub is_disconnected : State → Bool
is_disconnected disconnected = true
is_disconnected _ = false

abbrev pub is_connecting : State → Bool
is_connecting connecting = true
is_connecting _ = false

abbrev pub is_connected : State → Bool
is_connected connected = true
is_connected _ = false

abbrev pub is_disconnecting : State → Bool
is_disconnecting disconnecting = true
is_disconnecting _ = false

-- A task that the connection hands to `runInLoop` or `queueInLoop`.
pub data Task : Type 0 where
  write_complete shutdown_task start_read_task stop_read_task : Task
  high_water : ℕ → Task
  send_task : List ℕ → Task

-- What `write` on the socket returns: a count, or an `errno`.
pub data WriteResult : Type 0 where
  wrote : ℕ → WriteResult
  write_failed : ℕ → WriteResult

abbrev pub eagain : ℕ
eagain = 11

abbrev pub epipe : ℕ
epipe = 32

abbrev pub econnreset : ℕ
econnreset = 104

module _ (ep : Epoll) where
  pub record TcpConnection : Type 0 where
    pub state : State
    pub reading : Bool
    -- The channel is at this address, in the poller of the loop.
    pub channel : ℕ
    pub poller : Poller ep
    pub input_buffer : Buffer
    pub output_buffer : Buffer
    pub high_water_mark : ℕ
    -- The callbacks that are set.
    pub has_write_complete : Bool
    pub has_high_water_mark : Bool
    -- What the socket has been given, and whether its writing side was shut.
    pub wire : List ℕ
    pub write_shut : Bool
    -- The tasks in the loop's queue, and whether the loop's table of connections has this one.
    pub queued : List Task
    pub in_loop_table : Bool

  abbrev pub own_channel : TcpConnection → Channel
  own_channel c = c.poller.heap c.channel

  unfoldable pub switch : TcpConnection → Switch → Option TcpConnection
  switch c w = do s ← switch_channel ep c.poller c.channel w; some (record c { poller = s })

  abbrev pub queue_in_loop : TcpConnection → Task → TcpConnection
  queue_in_loop c t = record c { queued = c.queued ++ (t ∷ []) }

  -- `if (b) loop_->queueInLoop(t);`
  abbrev pub queue_if : Bool → TcpConnection → Task → TcpConnection
  queue_if b c t = record c { queued = if b then c.queued ++ (t ∷ []) else c.queued }

  -- The attempt to write at once: the connection, `nwrote` and `faultError`.
  unfoldable pub write_now : TcpConnection → List ℕ → WriteResult → TcpConnection × ℕ × Bool
  write_now c bytes (wrote n) = (
    queue_if (sub_size (length bytes) n == 0 && c.has_write_complete)
        (record c { wire = c.wire ++ take n bytes }) write_complete,
    n,
    false,
  )
  write_now c bytes (write_failed errno) =
      (c, 0, not (errno == eagain) && (errno == epipe || errno == econnreset))

  unfoldable pub try_write : TcpConnection → List ℕ → WriteResult → TcpConnection × ℕ × Bool
  try_write c bytes result =
      if not (is_writing (own_channel c)) && readable_bytes c.output_buffer == 0
      then write_now c bytes result
      else (c, 0, false)

  -- What was not written goes to the output buffer, and the channel waits to write.
  unfoldable pub save_rest : TcpConnection → List ℕ → ℕ → Option TcpConnection
  save_rest c rest remaining = do
    let total = add_size (readable_bytes c.output_buffer) remaining
    let noted = queue_if (leb c.high_water_mark total && c.has_high_water_mark) c (high_water total)
    output ← append c.output_buffer rest
    let saved : TcpConnection = record noted { output_buffer = output }
    if is_writing (own_channel saved) then some saved else switch saved enable_writing

  -- The end of `sendInLoop`, by what the attempt gave.
  unfoldable pub send_rest : List ℕ → TcpConnection → ℕ → Bool → Option TcpConnection
  send_rest bytes c nwrote fault = do
    let remaining = sub_size (length bytes) nwrote
    assert (leb remaining (length bytes))
    if not fault && ltb 0 remaining then save_rest c (drop nwrote bytes) remaining else some c

  unfoldable pub send_in_loop : TcpConnection → List ℕ → WriteResult → Option TcpConnection
  send_in_loop c bytes result =
      if is_disconnected c.state
      then some c
      else (let tried = try_write c bytes result in send_rest bytes tried.0 tried.1 tried.2)

  -- `send(const string&)`, in the loop's thread or in another.
  unfoldable pub send : TcpConnection → Bool → List ℕ → WriteResult → Option TcpConnection
  send c in_loop message result =
      if is_connected c.state
      then (if in_loop
          then send_in_loop c message result
          else some (queue_in_loop c (send_task message)))
      else some c

  -- `send(Buffer&)`: the caller's buffer is emptied when its bytes are taken.
  unfoldable pub send_buffer :
      TcpConnection → Bool → Buffer → WriteResult → Option (TcpConnection × Buffer)
  send_buffer c in_loop message result =
      if is_connected c.state
      then (do c' ← send c in_loop (contents message) result; some (c', retrieve_all message))
      else some (c, message)

  unfoldable pub start_read_in_loop : TcpConnection → Option TcpConnection
  start_read_in_loop c =
      if not c.reading || not (is_reading (own_channel c))
      then (do c' ← switch c enable_reading; some (record c' { reading = true }))
      else some c

  unfoldable pub stop_read_in_loop : TcpConnection → Option TcpConnection
  stop_read_in_loop c =
      if c.reading || is_reading (own_channel c)
      then (do c' ← switch c disable_reading; some (record c' { reading = false }))
      else some c

  unfoldable pub shutdown_in_loop : TcpConnection → TcpConnection
  shutdown_in_loop c = if is_writing (own_channel c) then c else record c { write_shut = true }

  unfoldable pub start_read : TcpConnection → Bool → Option TcpConnection
  start_read c in_loop =
      if in_loop then start_read_in_loop c else some (queue_in_loop c start_read_task)

  unfoldable pub stop_read : TcpConnection → Bool → Option TcpConnection
  stop_read c in_loop =
      if in_loop then stop_read_in_loop c else some (queue_in_loop c stop_read_task)

  unfoldable pub shutdown : TcpConnection → Bool → TcpConnection
  shutdown c in_loop =
      if is_connected c.state
      then (let c' : TcpConnection = record c { state = disconnecting } in
          if in_loop then shutdown_in_loop c' else queue_in_loop c' shutdown_task)
      else c

  -- What `handleWrite` does once the output buffer is empty.
  unfoldable pub write_done : TcpConnection → Option TcpConnection
  write_done c = do
    c' ← switch c disable_writing
    let told = queue_if c'.has_write_complete c' write_complete
    some (if is_disconnecting told.state then shutdown_in_loop told else told)

  unfoldable pub written_out : TcpConnection → ℕ → Option TcpConnection
  written_out c n =
      if ltb 0 n
      then (do
        output ← retrieve c.output_buffer n
        let c' : TcpConnection = record c {
          output_buffer = output;
          wire = c.wire ++ take n (contents c.output_buffer);
        }
        if readable_bytes output == 0 then write_done c' else some c')
      else some c

  unfoldable pub handle_write : TcpConnection → WriteResult → Option TcpConnection
  handle_write c result =
      if is_writing (own_channel c)
      then elim result [ wrote n ↦ written_out c n | write_failed errno ↦ some c ]
      else some c

  -- The callbacks that the server and its user set are arguments.
  unfoldable pub handle_close :
      (TcpConnection → Option TcpConnection) → TcpConnection → Option TcpConnection
  handle_close on_close c = do
    assert (is_connected c.state || is_disconnecting c.state)
    c' ← switch (record c { state = disconnected }) disable_all
    on_close c'

  unfoldable pub handle_read :
      (TcpConnection → Option TcpConnection)
      → (TcpConnection → Option TcpConnection)
      → TcpConnection
      → (ℕ → ReadResult)
      → Option TcpConnection
  handle_read on_message on_close c readv = do
    done ← read_fd c.input_buffer readv
    let c' : TcpConnection = record c { input_buffer = done.1 }
    elim done.0 [
      | failed errno ↦ some c'
      | received [] ↦ handle_close on_close c'
      | received (_ ∷ _) ↦ on_message c'
    ]

  -- `channel_->tie(...)`.
  unfoldable pub tie : TcpConnection → TcpConnection
  tie c = record c {
    poller = record c.poller {
      heap = set_at c.poller.heap c.channel (record (own_channel c) { tied = true });
    };
  }

  unfoldable pub connect_established :
      (TcpConnection → Option TcpConnection) → TcpConnection → Option TcpConnection
  connect_established on_connection c = do
    assert (is_connecting c.state)
    c' ← switch (tie (record c { state = connected; in_loop_table = true })) enable_reading
    on_connection c'

  -- The end of `connectDestroyed`: the table of the loop, then `channel_->remove()`.
  unfoldable pub leave_loop : TcpConnection → Option TcpConnection
  leave_loop c = do
    assert c.in_loop_table
    s ← remove ep c.poller c.channel
    some (record c { in_loop_table = false; poller = s })

  unfoldable pub connect_destroyed :
      (TcpConnection → Option TcpConnection) → TcpConnection → Option TcpConnection
  connect_destroyed on_connection c =
      if is_connected c.state
      then (do
        c' ← switch (record c { state = disconnected }) disable_all
        c'' ← on_connection c'
        leave_loop c'')
      else leave_loop c
