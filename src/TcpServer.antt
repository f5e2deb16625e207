-- ===== src/TcpServer.antt =====
-- net/TcpServer.h, net/TcpServer.cc, net/EventLoopThreadPool.cc and the constructor of
-- net/TcpConnection.cc: the acceptors of a server, and the connections that they bring.
pub mod Starting
pub mod Connecting
use dserver.Prelude.{
  ℕ, zero, suc, Bool, true, false, not, Option, none, some, List, [], ◌∷◌, ◌++◌, if◌then◌else◌,
  ◌>>=◌, ◌>>◌, assert,
}
use dserver.Buffer.{create, initial_size}
use dserver.Channel.{Channel}
use dserver.Poller.{Epoll, Poller, set_at}
use dserver.TcpConnection.{TcpConnection, connecting, connect_established}

-- A loop is an address. `loops_` are those of the pool's threads.
pub record EventLoopThreadPool : Type 0 where
  pub started : Bool
  pub num_threads : ℕ
  pub loops : List ℕ

abbrev pub new_pool : EventLoopThreadPool
new_pool = record { started = false; num_threads = 0; loops = [] }

-- The loops that the threads from `i` on create, in `startLoop`.
abbrev pub loops_from : (ℕ → ℕ) → ℕ → ℕ → List ℕ
loops_from start_loop i zero = []
loops_from start_loop i (suc n) = start_loop i ∷ loops_from start_loop (suc i) n

unfoldable pub start_pool : (ℕ → ℕ) → EventLoopThreadPool → Option EventLoopThreadPool
start_pool start_loop p = do
  assert (not p.started)
  some (record p { started = true; loops = p.loops ++ loops_from start_loop 0 p.num_threads })

unfoldable pub get_all_loops : EventLoopThreadPool → Option (List ℕ)
get_all_loops p = do assert p.started; some p.loops

pub record TcpServer : Type 0 where
  pub pool : EventLoopThreadPool
  -- `started_`, which `getAndSet` reads and sets.
  pub server_started : Bool
  -- The loops that were given an acceptor, in order.
  pub acceptors : List ℕ

abbrev pub new_server : TcpServer
new_server = record { pool = new_pool; server_started = false; acceptors = [] }

unfoldable pub set_thread_num : TcpServer → ℕ → TcpServer
set_thread_num s n = record s { pool = record s.pool { num_threads = n } }

unfoldable pub start : (ℕ → ℕ) → TcpServer → Option TcpServer
start start_loop s = do
  pool ← if s.server_started then some s.pool else start_pool start_loop s.pool
  loops ← get_all_loops pool
  some (record { pool = pool; server_started = true; acceptors = s.acceptors ++ loops })

module _ (ep : Epoll) where
  -- The channel of a new connection, with the callbacks that its constructor sets.
  abbrev pub new_channel : ℕ → Channel
  new_channel sockfd = record (dserver.Channel.create sockfd) {
    has_close = true;
    has_error = true;
    has_read = true;
    has_write = true;
  }

  -- The constructor: `p` is the address that `new` gives for the channel.
  unfoldable pub create_connection : Poller ep → ℕ → ℕ → Bool → TcpConnection ep
  create_connection s sockfd p has_write_complete = record {
    state = connecting;
    reading = true;
    channel = p;
    poller = record s { heap = set_at s.heap p (new_channel sockfd) };
    input_buffer = create initial_size;
    output_buffer = create initial_size;
    high_water_mark = 67108864;
    has_write_complete = has_write_complete;
    has_high_water_mark = false;
    wire = [];
    write_shut = false;
    queued = [];
    in_loop_table = false;
  }

  -- `newConnection`, which an acceptor calls in the thread of its loop, so that `runInLoop` runs
  -- its functor at once.
  unfoldable pub new_connection :
      (TcpConnection ep → Option (TcpConnection ep))
      → Poller ep
      → ℕ
      → ℕ
      → Bool
      → Option (TcpConnection ep)
  new_connection on_connection s sockfd p has_write_complete =
      connect_established ep on_connection (create_connection s sockfd p has_write_complete)
