-- ===== src/Tests/Pollers.antt =====
-- A poller of two channels over an epoll instance that is a table.
use dserver.Prelude.{
  ◌<◌, ◌≤◌, List, [], ◌∷◌, ℕ, ◌≡◌, ◌≢◌, refl, inr, true, false, Option, none, some, ◌==◌,
  if◌then◌else◌, arith,
}
use dserver.Channel.{Events, added, deleted, Channel, create, disable_reading, Revents, no_revents}
use dserver.Poller.{Epoll, Poller, set_at, remove, poll, reported}
use dserver.Poller.Invariant.{IsConsistent}
use dserver.Poller.Calls.{SwitchEnds, switch_channel_lem}
use dserver.Poller.Reports.{Reports}
use dserver.Poller.Polls.{poll_lem}

abbrev pub Table : Type 0
Table = ℕ → Option (ℕ × Events)

unfoldable pub table_add : Table → ℕ → ℕ → Events → Option Table
table_add k fd p e = elim (k fd) [ none ↦ some (set_at k fd (some (p, e))) | some _ ↦ none ]

unfoldable pub table_mod : Table → ℕ → ℕ → Events → Option Table
table_mod k fd p e = elim (k fd) [ none ↦ none | some _ ↦ some (set_at k fd (some (p, e))) ]

unfoldable pub table_del : Table → ℕ → Option Table
table_del k fd = elim (k fd) [ none ↦ none | some _ ↦ some (set_at k fd none) ]

pub table_add_lem :
    (k : Table) (fd p : ℕ) (e : Events)
    → k fd ≡ none
    → (k' : Table) × (table_add k fd p e ≡ some k')
      × ((j : ℕ) → k' j ≡ (if fd == j then some (p, e) else k j))
unfolding table_add
table_add_lem k fd p e h = (set_at k fd (some (p, e)), ground (arith, h), λ j. refl)

pub table_mod_lem :
    (k : Table) (fd p : ℕ) (e : Events)
    → k fd ≢ none
    → (k' : Table) × (table_mod k fd p e ≡ some k')
      × ((j : ℕ) → k' j ≡ (if fd == j then some (p, e) else k j))
unfolding table_mod
table_mod_lem k fd p e h = (set_at k fd (some (p, e)), ground (arith, h), λ j. refl)

pub table_del_lem :
    (k : Table) (fd : ℕ)
    → k fd ≢ none
    → (k' : Table) × (table_del k fd ≡ some k') × ((j : ℕ) → k' j ≡ (if fd == j then none else k j))
unfolding table_del
table_del_lem k fd h = (set_at k fd none, ground (arith, h), λ j. refl)

abbrev pub table_epoll : Epoll
table_epoll = record {
  Kernel = Table;
  watched = λ k fd. k fd;
  ctl_add = table_add;
  ctl_mod = table_mod;
  ctl_del = table_del;
  HasResources = Unit {0};
  add_lem = λ h. table_add_lem;
  mod_lem = λ h. table_mod_lem;
  del_lem = λ h. table_del_lem;
}

-- The channel of descriptor 7 at 1 waits to read, that of descriptor 9 at 2 has stopped waiting,
-- and a new one of descriptor 8 is at every other place.
abbrev pub read_event : Events
read_event = record { reads = true; writes = false }

abbrev pub reading_channel : Channel
reading_channel = record (create 7) { events = read_event; index = added; added_to_loop = true }

abbrev pub idle_channel : Channel
idle_channel = record (create 9) { index = deleted; added_to_loop = true }

abbrev pub two_channels : Poller table_epoll
two_channels = record {
  kernel = set_at (λ j. none) 7 (some (1, read_event));
  channels = set_at (set_at (λ j. none) 7 (some 1)) 9 (some 2);
  heap = set_at (set_at (λ q. create 8) 1 reading_channel) 2 idle_channel;
}

pub two_channels-IsConsistent : IsConsistent table_epoll two_channels
unfolding create
two_channels-IsConsistent = record {
  resources = tt;
  known = λ j q e. ground (arith, e);
  listed = λ j q e h. ground (arith, e, h);
  mapped = λ q h. ground (arith, h);
  follows = λ j q e. ground (arith, e);
  absent = λ j e. ground (arith, e);
}

switch_channel_example : SwitchEnds table_epoll two_channels 1 disable_reading
unfolding create
switch_channel_example =
    switch_channel_lem table_epoll two_channels 1 disable_reading two_channels-IsConsistent
      (inr refl)

-- A channel that waits to read is not to be removed.
remove_waiting : remove table_epoll two_channels 1 ≡ none
unfolding remove create
remove_waiting = refl

abbrev two_reports : List (ℕ × Revents)
two_reports =
    (2, record no_revents { pollhup = true }) ∷ (1, record no_revents { pollin = true }) ∷ []

-- The list of two events is full, and grows to four.
poll_lem_example :
    let t = poll table_epoll two_channels 2 (5 ∷ []) (reported two_reports) in
    (t.0 ≡ 5 ∷ 2 ∷ 1 ∷ [])
    × Reports table_epoll two_reports two_channels t.1
    × IsConsistent table_epoll t.1
    × (2 < t.2)
    × (2 ≤ t.2)
poll_lem_example =
    poll_lem table_epoll two_channels 2 (5 ∷ []) (reported two_reports) two_channels-IsConsistent
      (omega arith) (omega arith)
