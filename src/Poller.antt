-- ===== src/Poller.antt =====
-- net/Epoller.cc: the channels that a loop watches, and the interest set of its epoll instance.
pub mod Calls
pub mod Invariant
pub mod Removal
pub mod Polls
pub mod Reports
pub mod Switches
use dserver.Prelude.{
  ◌*◌, ltb, length, ◌++◌, ℕ, ◌≡◌, ◌≢◌, Bool, true, false, not, ◌&&◌, ◌||◌, Option, none, some, List,
  [], ◌∷◌, ◌++◌, ◌==◌, if◌then◌else◌, ◌>>=◌, ◌>>◌, assert,
}
use dserver.Channel.{
  Events, Revents, Index, fresh, added, deleted, Channel, Switch, switched, is_none_event,
}

-- epoll_ctl(2): an entry of the interest set is a descriptor with a pointer and the events asked
-- for. ADD fails with EEXIST on a descriptor that is there, MOD and DEL with ENOENT on one that is
-- not. Every call may fail for other reasons too, which the laws exclude by `HasResources` alone.
pub record Epoll : Type 1 where
  pub Kernel : Type 0
  pub watched : Kernel → ℕ → Option (ℕ × Events)
  pub ctl_add : Kernel → ℕ → ℕ → Events → Option Kernel
  pub ctl_mod : Kernel → ℕ → ℕ → Events → Option Kernel
  pub ctl_del : Kernel → ℕ → Option Kernel
  -- No call on the instance fails with ENOMEM, ENOSPC, EPERM or EBADF: memory and watches suffice,
  -- and every descriptor that is handed over is open and can be watched.
  pub HasResources : Type 0
  pub add_lem :
      HasResources
      → (k : Kernel) (fd p : ℕ) (e : Events) → watched k fd ≡ none
      → (k' : Kernel) × (ctl_add k fd p e ≡ some k')
        × ((j : ℕ) → watched k' j ≡ (if fd == j then some (p, e) else watched k j))
  pub mod_lem :
      HasResources
      → (k : Kernel) (fd p : ℕ) (e : Events) → watched k fd ≢ none
      → (k' : Kernel) × (ctl_mod k fd p e ≡ some k')
        × ((j : ℕ) → watched k' j ≡ (if fd == j then some (p, e) else watched k j))
  pub del_lem :
      HasResources
      → (k : Kernel) (fd : ℕ) → watched k fd ≢ none
      → (k' : Kernel) × (ctl_del k fd ≡ some k')
        × ((j : ℕ) → watched k' j ≡ (if fd == j then none else watched k j))

-- kInitEventListSize.
abbrev pub init_event_list_size : ℕ
init_event_list_size = 16

-- A store of a map, by address or by descriptor.
abbrev pub set_at {ℓ} : {A : Type ℓ} → (ℕ → A) → ℕ → A → ℕ → A
set_at f i a j = if i == j then a else f j

module _ (ep : Epoll) where
  open ep use {Kernel, ctl_add, ctl_mod, ctl_del}

  -- The poller with the channels that its pointers refer to.
  pub record Poller : Type 0 where
    pub kernel : Kernel
    -- `channels_`, from descriptors to pointers.
    pub channels : ℕ → Option ℕ
    pub heap : ℕ → Channel

  -- `channel->set_index`.
  unfoldable pub set_index : Poller → ℕ → Index → Poller
  set_index s p i = record s { heap = set_at s.heap p (record (s.heap p) { index = i }) }

  -- `update`: LOG_SYSFATAL aborts on a failed ADD or MOD, and a failed DEL is logged.
  unfoldable pub update_add : Poller → ℕ → Option Poller
  update_add s p = do
    k ← ctl_add s.kernel (s.heap p).fd p (s.heap p).events
    some (record s { kernel = k })

  unfoldable pub update_mod : Poller → ℕ → Option Poller
  update_mod s p = do
    k ← ctl_mod s.kernel (s.heap p).fd p (s.heap p).events
    some (record s { kernel = k })

  unfoldable pub update_del : Poller → ℕ → Poller
  update_del s p = elim (ctl_del s.kernel (s.heap p).fd) [
    | none ↦ s
    | some k ↦ record s { kernel = k }
  ]

  unfoldable pub update_by : Poller → ℕ → Index → Option Poller
  update_by s p added =
      if is_none_event (s.heap p)
      then some (set_index (update_del s p) p deleted)
      else update_mod s p
  update_by s p _ =
      update_add
        (set_index (record s { channels = set_at s.channels (s.heap p).fd (some p) }) p added) p

  -- `none` is LOG_SYSFATAL: epoll_ctl refused the ADD or the MOD, for any reason.
  unfoldable pub update_channel : Poller → ℕ → Option Poller
  update_channel s p = update_by s p (s.heap p).index

  is_pointer : Option ℕ → ℕ → Bool
  is_pointer none p = false
  is_pointer (some q) p = q == p

  unfoldable pub has_channel : Poller → ℕ → Bool
  unfolding is_pointer
  has_channel s p = is_pointer (s.channels (s.heap p).fd) p

  -- The part of `removeChannel` behind its asserts.
  unfoldable pub erase_by : Poller → ℕ → Index → Poller
  erase_by s p added = set_index (update_del s p) p fresh
  erase_by s p _ = set_index s p fresh

  unfoldable pub erase_channel : Poller → ℕ → Poller
  erase_channel s p =
      erase_by (record s { channels = set_at s.channels (s.heap p).fd none }) p (s.heap p).index

  is_fresh : Index → Bool
  is_fresh fresh = true
  is_fresh _ = false

  unfoldable pub remove_channel : Poller → ℕ → Option Poller
  unfolding is_fresh
  remove_channel s p = do
    assert (has_channel s p)
    assert (is_none_event (s.heap p))
    assert (not (is_fresh (s.heap p).index))
    some (erase_channel s p)

  -- A switch of `Channel`: the mask changes, and `update()` hands the channel to the poller.
  unfoldable pub switch_channel : Poller → ℕ → Switch → Option Poller
  switch_channel s p w =
      update_channel
        (record s {
          heap =
              set_at s.heap p
                (record (s.heap p) { events = switched w (s.heap p).events; added_to_loop = true });
        })
        p

  -- `Channel::remove`, as the loop's thread runs it. The assert of `EventLoop::removeChannel` on the
  -- way, which does not read the poller, is in `EventLoop.remove_channel`.
  unfoldable pub remove : Poller → ℕ → Option Poller
  remove s p = do
    assert (is_none_event (s.heap p))
    remove_channel
        (record s { heap = set_at s.heap p (record (s.heap p) { added_to_loop = false }) }) p

  -- `fillActiveChannels`, over the pointers and flags that epoll_wait reports.
  unfoldable pub fill_active_channels : Poller → List (ℕ × Revents) → List ℕ × Poller
  fill_active_channels s [] = ([], s)
  fill_active_channels s ((p, r) ∷ events) =
      let (active, s') =
        fill_active_channels
          (record s { heap = set_at s.heap p (record (s.heap p) { revents = r }) }) events in
      (p ∷ active, s')

  -- What epoll_wait returns: the reports that it wrote, or an `errno`.
  pub data Waited : Type 0 where
    reported : List (ℕ × Revents) → Waited
    wait_failed : ℕ → Waited

  -- `poll`, on a list of events of the given size: the active channels, the poller, and the size of
  -- the list from then on. An error is only logged.
  unfoldable pub poll : Poller → ℕ → List ℕ → Waited → List ℕ × Poller × ℕ
  poll s size active (reported events) =
      let (found, s') = fill_active_channels s events in
      if ltb 0 (length events)
      then (active ++ found, s', if length events == size then size * 2 else size)
      else (active, s, size)
  poll s size active (wait_failed errno) = (active, s, size)
