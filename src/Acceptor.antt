-- ===== src/Acceptor.antt =====
-- net/Acceptor.h and net/Acceptor.cc: the listening socket of a loop, and the loop over its waiting
-- connections. What the system calls answer is a list, which the calls take from the front: the loop
-- that has used it up waits for a further answer.
pub mod Bursts
use dserver.Prelude.{
  ℕ, Bool, true, false, Option, none, some, List, [], ◌∷◌, ◌++◌, ◌==◌, leb, if◌then◌else◌, ◌>>=◌,
  ◌>>◌, assert,
}
use dserver.Channel.{enable_reading, disable_all}
use dserver.Poller.{Epoll, Poller, switch_channel, remove}
use dserver.TcpConnection.{eagain}

abbrev pub emfile : ℕ
emfile = 24

-- A call of `accept` or `open` returns a descriptor, or fails with an `errno`.
pub data Answer : Type 0 where
  given : ℕ → Answer
  failed : ℕ → Answer

pub record Acceptor : Type 0 where
  pub channel : ℕ
  pub listening : Bool
  pub has_callback : Bool
  pub idle_fd : ℕ
  -- The connections that the callback was given, and the descriptors that were closed.
  pub delivered : List ℕ
  pub closed : List ℕ

-- `newConnectionCallback_`, or the close of a connection that nobody wants.
unfoldable pub hand_over : Acceptor → ℕ → Acceptor
hand_over a fd =
    if a.has_callback
    then record a { delivered = a.delivered ++ (fd ∷ []) }
    else record a { closed = a.closed ++ (fd ∷ []) }

unfoldable pub close : Acceptor → ℕ → Acceptor
close a fd = record a { closed = a.closed ++ (fd ∷ []) }

-- Where `handleRead` is: at the `accept` of its loop, at that of the loop behind EMFILE, or at the
-- `open` of the loop behind that.
pub data Place : Type 0 where
  accepting filling reopening : Place

-- How far the answers bring it.
pub data Progress : Type 0 where
  returned : Acceptor → Progress
  still_in : Place → Acceptor → Progress

-- A failed call of the outer loop: the last one, one that is out of descriptors, or another.
unfoldable pub after_failure : ℕ → Progress → Progress → Progress → Progress
after_failure errno again exhausted other =
    if errno == eagain then again else if errno == emfile then exhausted else other

-- The body of `handleRead`; what is logged does not change `errno`.
unfoldable pub handle_read : Place → Acceptor → List Answer → Progress
handle_read place a [] = still_in place a
handle_read accepting a (given fd ∷ answers) = handle_read accepting (hand_over a fd) answers
handle_read accepting a (failed errno ∷ answers) =
    after_failure errno (returned a) (handle_read filling (close a a.idle_fd) answers)
      (handle_read accepting a answers)
handle_read filling a (given fd ∷ answers) =
    handle_read reopening (close (record a { idle_fd = fd }) fd) answers
handle_read filling a (failed errno ∷ answers) = handle_read filling a answers
handle_read reopening a (given fd ∷ answers) =
    handle_read accepting (record a { idle_fd = fd }) answers
handle_read reopening a (failed errno ∷ answers) = handle_read reopening a answers

-- The constructor: `idle` is what the `open` of /dev/null returns, or -1.
unfoldable pub create : ℕ → Option ℕ → Option Acceptor
create channel idle = do
  fd ← idle
  some (record {
    channel = channel;
    listening = false;
    has_callback = false;
    idle_fd = fd;
    delivered = [];
    closed = [];
  })

module _ (ep : Epoll) where
  -- `listen()`, in the poller of its loop.
  unfoldable pub listen : Poller ep → Acceptor → Option (Poller ep × Acceptor)
  listen s a = do
    s' ← switch_channel ep s a.channel enable_reading
    some (s', record a { listening = true })

  -- The destructor.
  unfoldable pub destroy : Poller ep → Acceptor → Option (Poller ep × Acceptor)
  destroy s a = do
    s' ← switch_channel ep s a.channel disable_all
    s'' ← remove ep s' a.channel
    some (s'', close a a.idle_fd)
