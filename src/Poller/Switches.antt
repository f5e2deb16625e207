-- ===== src/Poller/Switches.antt =====
-- net/Epoller.cc, `updateChannel` and `update`: each way to hand a channel to the kernel.
use dserver.Prelude.{
  ℕ, ◌≡◌, ◌≢◌, refl, ap, ◌∙◌, ◌⊎◌, inl, inr, true, false, none, some, ◌==◌, if◌then◌else◌, arith,
}
use dserver.Channel.{Index, fresh, added, deleted, Channel, is_none_event}
use dserver.Poller.{Epoll, Poller, set_at, set_index, update_add, update_mod, update_del, update_by}
use dserver.Poller.Invariant.{Registers}

pub set_at_self {ℓ} : {A : Type ℓ} (f : ℕ → A) (i : ℕ) (a : A) → set_at f i a i ≡ a
set_at_self f i a = ground arith

pub Index-cases : (i : Index) → (i ≡ fresh) ⊎ (i ≡ added) ⊎ (i ≡ deleted)
Index-cases fresh = inl refl
Index-cases added = inr (inl refl)
Index-cases deleted = inr (inr refl)

module _ (ep : Epoll) where
  open ep use {Kernel, watched, HasResources, ctl_add, ctl_mod, ctl_del, add_lem, mod_lem, del_lem}

  update_add_lem :
      (s : Poller ep) (p : ℕ) (c : Channel)
      → s.heap p ≡ c
      → HasResources
      → watched s.kernel c.fd ≡ none
      → (k : Kernel) × (update_add ep s p ≡ some (record s { kernel = k }))
        × ((j : ℕ) → watched k j ≡ (if c.fd == j then some (p, c.events) else watched s.kernel j))
  unfolding update_add
  update_add_lem s p c e u h =
      let (k, d, w) = add_lem u s.kernel c.fd p c.events h in (k, rw e (rw d refl), w)

  update_mod_lem :
      (s : Poller ep) (p : ℕ) (c : Channel)
      → s.heap p ≡ c
      → HasResources
      → watched s.kernel c.fd ≢ none
      → (k : Kernel) × (update_mod ep s p ≡ some (record s { kernel = k }))
        × ((j : ℕ) → watched k j ≡ (if c.fd == j then some (p, c.events) else watched s.kernel j))
  unfolding update_mod
  update_mod_lem s p c e u h =
      let (k, d, w) = mod_lem u s.kernel c.fd p c.events h in (k, rw e (rw d refl), w)

  pub update_del_lem :
      (s : Poller ep) (p : ℕ) (c : Channel)
      → s.heap p ≡ c
      → HasResources
      → watched s.kernel c.fd ≢ none
      → (k : Kernel) × (update_del ep s p ≡ record s { kernel = k })
        × ((j : ℕ) → watched k j ≡ (if c.fd == j then none else watched s.kernel j))
  unfolding update_del
  update_del_lem s p c e u h =
      let (k, d, w) = del_lem u s.kernel c.fd h in
      (k, rw (e, update_del) (rw (d, update_del) refl), w)

  update_by_del :
      (z : Poller ep) (p : ℕ) (c : Channel)
      → z.heap p ≡ c
      → is_none_event c ≡ true
      → update_by ep z p added ≡ some (set_index ep (update_del ep z p) p deleted)
  unfolding update_by
  update_by_del z p c e n = rw e (rw n refl)

  -- `z` is `s` with the channel `c` at `p`, not yet handed to `updateChannel`.
  pub record Holds (s z : Poller ep) (p : ℕ) (c : Channel) : Type 0 where
    pub same_fd : c.fd ≡ (s.heap p).fd
    pub self : z.heap p ≡ c
    pub heap : (q : ℕ) → z.heap q ≡ (if p == q then c else s.heap q)
    pub maps : (j : ℕ) → z.channels j ≡ s.channels j
    pub watches : (j : ℕ) → watched z.kernel j ≡ watched s.kernel j

  pub set_index_self :
      (s : Poller ep) (p : ℕ) (i : Index) (c : Channel)
      → s.heap p ≡ c
      → (set_index ep s p i).heap p ≡ record c { index = i }
  unfolding set_index
  set_index_self s p i c e =
      set_at_self s.heap p (record (s.heap p) { index = i })
      ∙ ap {A = Channel} (λ d. record d { index = i }) e

  module _ {s z : Poller ep} {p : ℕ} {c : Channel} (u : HasResources) (h : Holds s z p c) where
    -- A channel that is not in the interest set is added, whatever its mask.
    pub add-Registers :
        watched s.kernel (s.heap p).fd ≡ none
        → (t : Poller ep) × (update_add ep
              (set_index ep
                (record z { channels = set_at z.channels (z.heap p).fd (some p) })
                p
                added)
              p
            ≡ some t)
          × Registers ep s p (record c { index = added }) t
    unfolding set_index
    add-Registers w =
        let y' : Poller ep = record z { channels = set_at z.channels (z.heap p).fd (some p) } in
        let y = set_index ep y' p added in
        let (k, d, x) =
          update_add_lem y p (record c { index = added }) (set_index_self y' p added c h.self) u
            (ground (arith, h.watches c.fd, h.same_fd)) in
        (
          record y { kernel = k },
          d,
          record {
            same_fd = h.same_fd;
            not_fresh = λ b. cc;
            stores = λ q. ground (arith, h.heap q, h.self);
            maps = λ j. ground (arith, h.self, h.same_fd, h.maps j);
            watches = λ j. ground (arith, x j, h.same_fd, h.watches j);
          },
        )

    -- A channel that waits for nothing more leaves the interest set.
    pub del-Registers :
        watched s.kernel (s.heap p).fd ≢ none
        → s.channels (s.heap p).fd ≡ some p
        → is_none_event c ≡ true
        → (t : Poller ep) × (update_by ep z p added ≡ some t)
          × Registers ep s p (record c { index = deleted }) t
    unfolding set_index
    del-Registers w m n =
        let (k, d, x) =
          update_del_lem z p c h.self u (λ b. w (ground (arith, h.watches c.fd, h.same_fd))) in
        (
          set_index ep (record z { kernel = k }) p deleted,
          update_by_del z p c h.self n ∙ ap (λ q. some (set_index ep q p deleted)) d,
          record {
            same_fd = h.same_fd;
            not_fresh = λ b. cc;
            stores = λ q. ground (arith, h.heap q, h.self);
            maps = λ j. ground (arith, h.same_fd, h.maps j, m);
            watches = λ j. ground (arith, x j, h.same_fd, h.watches j);
          },
        )

    -- A channel that waits for other events is modified.
    pub mod-Registers :
        watched s.kernel (s.heap p).fd ≢ none
        → s.channels (s.heap p).fd ≡ some p
        → is_none_event c ≡ false
        → c.index ≡ added
        → (t : Poller ep) × (update_by ep z p added ≡ some t) × Registers ep s p c t
    unfolding update_by
    mod-Registers w m n i =
        let (k, d, x) =
          update_mod_lem z p c h.self u (λ b. w (ground (arith, h.watches c.fd, h.same_fd))) in
        (
          record z { kernel = k },
          rw (h.self) (rw n d),
          record {
            same_fd = h.same_fd;
            not_fresh = λ b. cc;
            stores = λ q. h.heap q;
            maps = λ j. ground (arith, h.same_fd, h.maps j, m);
            watches = λ j. ground (arith, x j, h.same_fd, h.watches j, i);
          },
        )
