-- ===== src/Channel.antt =====
-- net/Channel.h and net/Channel.cc: what a file descriptor waits for, and what its events call.
-- A set of poll flags is a record of the flags that the code sets or tests.
use dserver.Prelude.{ℕ, Bool, true, false, not, ◌&&◌, ◌||◌, List, [], ◌∷◌, ◌++◌, if◌then◌else◌}

-- `events_`: kReadEvent is POLLIN | POLLPRI, always set together, and kWriteEvent is POLLOUT.
pub record Events : Type 0 where
  pub reads : Bool
  pub writes : Bool

abbrev pub none_event : Events
none_event = record { reads = false; writes = false }

-- `revents_`: what epoll reports.
pub record Revents : Type 0 where
  pub pollin : Bool
  pub pollpri : Bool
  pub pollout : Bool
  pub pollhup : Bool
  pub pollrdhup : Bool
  pub pollerr : Bool
  pub pollnval : Bool

abbrev pub no_revents : Revents
no_revents = record {
  pollin = false;
  pollpri = false;
  pollout = false;
  pollhup = false;
  pollrdhup = false;
  pollerr = false;
  pollnval = false;
}

-- kNew, kAdded and kDeleted of Epoller.cc.
pub data Index : Type 0 where
  fresh added deleted : Index

pub data Callback : Type 0 where
  on_close on_error on_read on_write : Callback

pub record Channel : Type 0 where
  pub fd : ℕ
  pub events : Events
  pub revents : Revents
  pub index : Index
  pub tied : Bool
  pub event_handling : Bool
  pub added_to_loop : Bool
  -- The callbacks that are set.
  pub has_close : Bool
  pub has_error : Bool
  pub has_read : Bool
  pub has_write : Bool

-- The constructor.
unfoldable pub create : ℕ → Channel
create fd = record {
  fd = fd;
  events = none_event;
  revents = no_revents;
  index = fresh;
  tied = false;
  event_handling = false;
  added_to_loop = false;
  has_close = false;
  has_error = false;
  has_read = false;
  has_write = false;
}

abbrev pub is_writing : Channel → Bool
is_writing c = c.events.writes

abbrev pub is_reading : Channel → Bool
is_reading c = c.events.reads

abbrev pub is_none_event : Channel → Bool
is_none_event c = not (c.events.reads || c.events.writes)

-- The masks that the switches compute, before `update()`.
pub data Switch : Type 0 where
  enable_reading disable_reading enable_writing disable_writing disable_all : Switch

unfoldable pub switched : Switch → Events → Events
switched enable_reading e = record e { reads = true }
switched disable_reading e = record e { reads = false }
switched enable_writing e = record e { writes = true }
switched disable_writing e = record e { writes = false }
switched disable_all e = none_event

abbrev run_if : Bool → Bool → Callback → List Callback
run_if true true c = c ∷ []
run_if _ _ c = []

-- The callbacks that `handleEvent` runs, in order. `alive` is whether `tie_.lock()` succeeds.
unfoldable pub callbacks : Channel → List Callback
callbacks c =
    let r = c.revents in
    run_if (r.pollhup && not r.pollin) c.has_close on_close
    ++ (run_if (r.pollerr || r.pollnval) c.has_error on_error
        ++ (run_if (r.pollin || (r.pollpri || r.pollrdhup)) c.has_read on_read
            ++ run_if r.pollout c.has_write on_write))

unfoldable pub handle_event : Channel → Bool → List Callback
handle_event c alive = if c.tied && not alive then [] else callbacks c
