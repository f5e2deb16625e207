-- ===== src/Poller/Invariant.antt =====
-- The interest set of the kernel follows the channels: what each poller call keeps.
use dserver.Prelude.{ℕ, ◌≡◌, ◌≢◌, ◌⊎◌, Option, none, some, ◌==◌, if◌then◌else◌, arith}
use dserver.Channel.{Events, fresh, added, Channel}
use dserver.Poller.{Epoll, Poller}

-- What the kernel is to hold for a channel that the poller knows.
abbrev pub watch_of : ℕ → Channel → Option (ℕ × Events)
watch_of p c = elim c.index [ added ↦ some (p, c.events) | _ ↦ none ]

module _ (ep : Epoll) where
  open ep use {watched, HasResources}

  pub record IsConsistent (s : Poller ep) : Type 0 where
    -- The calls of epoll_ctl fail neither for lack of memory or watches nor for the descriptor.
    pub resources : HasResources
    -- A descriptor leads to a channel of that descriptor, which is not new.
    pub known : (j q : ℕ) → s.channels j ≡ some q → (s.heap q).fd ≡ j
    pub listed : (j q : ℕ) → s.channels j ≡ some q → (s.heap q).index ≢ fresh
    -- A channel that is not new is found under its descriptor.
    pub mapped : (q : ℕ) → (s.heap q).index ≢ fresh → s.channels (s.heap q).fd ≡ some q
    -- The kernel watches the added channels, each for the events of its mask, and nothing else.
    pub follows : (j q : ℕ) → s.channels j ≡ some q → watched s.kernel j ≡ watch_of q (s.heap q)
    pub absent : (j : ℕ) → s.channels j ≡ none → watched s.kernel j ≡ none

  -- No other channel is registered under the descriptor of `p`.
  abbrev pub IsFree : Poller ep → ℕ → Type 0
  IsFree s p = (s.channels (s.heap p).fd ≡ none) ⊎ (s.channels (s.heap p).fd ≡ some p)

  -- `t` is `s` with `c` in the place of the channel `p`, registered under its descriptor.
  pub record Registers (s : Poller ep) (p : ℕ) (c : Channel) (t : Poller ep) : Type 0 where
    pub same_fd : c.fd ≡ (s.heap p).fd
    pub not_fresh : c.index ≢ fresh
    pub stores : (q : ℕ) → t.heap q ≡ (if p == q then c else s.heap q)
    pub maps : (j : ℕ) → t.channels j ≡ (if (s.heap p).fd == j then some p else s.channels j)
    pub watches :
        (j : ℕ)
        → watched t.kernel j ≡ (if (s.heap p).fd == j then watch_of p c else watched s.kernel j)

  module _ {s t : Poller ep} {p : ℕ} {c : Channel} (v : IsConsistent s) (f : IsFree s p)
      (r : Registers s p c t) where
    registers-known : (j q : ℕ) → t.channels j ≡ some q → (t.heap q).fd ≡ j
    registers-known j q e = ground (arith, r.stores q, r.maps j, r.same_fd, v.known j q)

    registers-listed : (j q : ℕ) → t.channels j ≡ some q → (t.heap q).index ≢ fresh
    registers-listed j q e h = ground (arith, r.stores q, r.maps j, r.not_fresh, v.listed j q, f)

    registers-mapped : (q : ℕ) → (t.heap q).index ≢ fresh → t.channels (t.heap q).fd ≡ some q
    registers-mapped q h =
        ground (arith, r.stores q, r.maps c.fd, r.maps (s.heap q).fd, r.same_fd, v.mapped q, f)

    registers-follows :
        (j q : ℕ) → t.channels j ≡ some q → watched t.kernel j ≡ watch_of q (t.heap q)
    registers-follows j q e =
        ground (arith, r.stores q, r.maps j, r.watches j, v.follows j q, v.known j q)

    registers-absent : (j : ℕ) → t.channels j ≡ none → watched t.kernel j ≡ none
    registers-absent j e = ground (arith, r.maps j, r.watches j, v.absent j)

    pub Registers-IsConsistent : IsConsistent t
    Registers-IsConsistent = record {
      resources = v.resources;
      known = registers-known;
      listed = registers-listed;
      mapped = registers-mapped;
      follows = registers-follows;
      absent = registers-absent;
    }

  -- `t` is `s` with `c`, a new channel, in the place of `p`, which is registered no more.
  pub record Forgets (s : Poller ep) (p : ℕ) (c : Channel) (t : Poller ep) : Type 0 where
    pub now_fresh : c.index ≡ fresh
    pub forgets : (q : ℕ) → t.heap q ≡ (if p == q then c else s.heap q)
    pub unmaps : (j : ℕ) → t.channels j ≡ (if (s.heap p).fd == j then none else s.channels j)
    pub unwatches :
        (j : ℕ) → watched t.kernel j ≡ (if (s.heap p).fd == j then none else watched s.kernel j)

  module _ {s t : Poller ep} {p : ℕ} {c : Channel} (v : IsConsistent s)
      (f : s.channels (s.heap p).fd ≡ some p) (r : Forgets s p c t) where
    forgets-known : (j q : ℕ) → t.channels j ≡ some q → (t.heap q).fd ≡ j
    forgets-known j q e = ground (arith, r.forgets q, r.unmaps j, v.known j q)

    forgets-listed : (j q : ℕ) → t.channels j ≡ some q → (t.heap q).index ≢ fresh
    forgets-listed j q e h = ground (arith, r.forgets q, r.unmaps j, v.listed j q, v.known j q)

    forgets-mapped : (q : ℕ) → (t.heap q).index ≢ fresh → t.channels (t.heap q).fd ≡ some q
    forgets-mapped q h =
        ground (arith, r.forgets q, r.unmaps (s.heap q).fd, r.now_fresh, v.mapped q, f)

    forgets-follows : (j q : ℕ) → t.channels j ≡ some q → watched t.kernel j ≡ watch_of q (t.heap q)
    forgets-follows j q e =
        ground (arith, r.forgets q, r.unmaps j, r.unwatches j, v.follows j q, v.known j q)

    forgets-absent : (j : ℕ) → t.channels j ≡ none → watched t.kernel j ≡ none
    forgets-absent j e = ground (arith, r.unmaps j, r.unwatches j, v.absent j)

    pub Forgets-IsConsistent : IsConsistent t
    Forgets-IsConsistent = record {
      resources = v.resources;
      known = forgets-known;
      listed = forgets-listed;
      mapped = forgets-mapped;
      follows = forgets-follows;
      absent = forgets-absent;
    }
