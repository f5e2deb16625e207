-- ===== src/Poller/Calls.antt =====
-- net/Channel.cc and net/Epoller.cc: a channel's switches and its removal, on a consistent poller.
use dserver.Prelude.{
  ℕ, ◌≡◌, ◌≢◌, refl, sym, ap, ◌∙◌, ◌⊎◌, inl, inr, true, none, some, arith, Bool-cases,
}
use dserver.Channel.{Index, fresh, added, deleted, Channel, Switch, switched, is_none_event}
use dserver.Poller.{Epoll, Poller, set_at, update_by, update_channel, switch_channel}
use dserver.Poller.Invariant.{watch_of, IsConsistent, IsFree, Registers, Registers-IsConsistent}
use dserver.Poller.Switches.{
  Index-cases, set_at_self, Holds, add-Registers, del-Registers, mod-Registers,
}

abbrev switched_channel : Switch → Channel → Channel
switched_channel w c = record c { events = switched w c.events; added_to_loop = true }

module _ (ep : Epoll) where
  open ep use {watched}

  abbrev turned : Poller ep → ℕ → Switch → Poller ep
  turned s p w = record s { heap = set_at s.heap p (switched_channel w (s.heap p)) }

  turned-Holds :
      (s : Poller ep) (p : ℕ) (w : Switch)
      → Holds ep s (turned s p w) p (switched_channel w (s.heap p))
  turned-Holds s p w = record {
    same_fd = refl;
    self = set_at_self s.heap p (switched_channel w (s.heap p));
    heap = λ q. refl;
    maps = λ j. refl;
    watches = λ j. refl;
  }

  switch_channel-index :
      (s : Poller ep) (p : ℕ) (w : Switch) (i : Index)
      → (s.heap p).index ≡ i
      → switch_channel ep s p w ≡ update_by ep (turned s p w) p i
  unfolding switch_channel update_channel
  switch_channel-index s p w i e =
      ap (λ c. update_by ep (turned s p w) p c.index)
        (set_at_self s.heap p (switched_channel w (s.heap p)))
      ∙ ap (update_by ep (turned s p w) p) e

  -- What a switch leaves: the channel has the new mask, and is registered.
  abbrev pub SwitchEnds : Poller ep → ℕ → Switch → Type 0
  SwitchEnds s p w =
      (t : Poller ep) × (switch_channel ep s p w ≡ some t)
      × IsConsistent ep t
      × (t.channels (s.heap p).fd ≡ some p)
      × ((t.heap p).events ≡ switched w (s.heap p).events)
      × ((q : ℕ) → t.heap q ≡ set_at s.heap p (t.heap p) q)

  module _ (s : Poller ep) (p : ℕ) (w : Switch) (v : IsConsistent ep s) (f : IsFree ep s p) where
    Registers-ends :
        (c : Channel) (t : Poller ep)
        → switch_channel ep s p w ≡ some t
        → c.events ≡ switched w (s.heap p).events
        → Registers ep s p c t
        → SwitchEnds s p w
    Registers-ends c t e m r = (
      t,
      e,
      Registers-IsConsistent ep v f r,
      ground (arith, r.maps (s.heap p).fd),
      ground (arith, r.stores p, m),
      λ q. ground (arith, r.stores q, r.stores p),
    )

    fresh_unwatched : (s.heap p).index ≡ fresh → watched s.kernel (s.heap p).fd ≡ none
    fresh_unwatched e = elim f [
      | inl n ↦ v.absent (s.heap p).fd n
      | inr m ↦ absurd (v.listed (s.heap p).fd p m e)
    ]

    added_mapped : (s.heap p).index ≢ fresh → s.channels (s.heap p).fd ≡ some p
    added_mapped n = v.mapped p n

    added_watch :
        (i : Index)
        → (s.heap p).index ≡ i
        → i ≢ fresh
        → watched s.kernel (s.heap p).fd ≡ watch_of p (record (s.heap p) { index = i })
    added_watch i e n =
        v.follows (s.heap p).fd p (v.mapped p (λ b. n (sym e ∙ b)))
        ∙ ap (λ j. watch_of p (record (s.heap p) { index = j })) e

    switch_add :
        (i : Index)
        → (s.heap p).index ≡ i
        → (i ≡ fresh) ⊎ (i ≡ deleted)
        → watched s.kernel (s.heap p).fd ≡ none
        → SwitchEnds s p w
    unfolding update_by
    switch_add fresh e h n =
        let (t, d, r) = add-Registers ep v.resources (turned-Holds s p w) n in
        Registers-ends (record (switched_channel w (s.heap p)) { index = added }) t
          (switch_channel-index s p w fresh e ∙ d) refl r
    switch_add added e h n = absurd (ground (arith, h))
    switch_add deleted e h n =
        let (t, d, r) = add-Registers ep v.resources (turned-Holds s p w) n in
        Registers-ends (record (switched_channel w (s.heap p)) { index = added }) t
          (switch_channel-index s p w deleted e ∙ d) refl r

    switch_added : (s.heap p).index ≡ added → SwitchEnds s p w
    switch_added e =
        let n : (s.heap p).index ≢ fresh = λ b. ground (arith, e, b) in
        let m = v.mapped p n in
        let k : watched s.kernel (s.heap p).fd ≢ none =
          λ b. ground (arith, added_watch added e (λ c. ground arith), b) in
        elim (Bool-cases (is_none_event (switched_channel w (s.heap p)))) [
          | inl a ↦
              let (t, d, r) = del-Registers ep v.resources (turned-Holds s p w) k m a in
              Registers-ends (record (switched_channel w (s.heap p)) { index = deleted }) t
                (switch_channel-index s p w added e ∙ d) refl r
          | inr b ↦
              let (t, d, r) = mod-Registers ep v.resources (turned-Holds s p w) k m b e in
              Registers-ends (switched_channel w (s.heap p)) t
                (switch_channel-index s p w added e ∙ d) refl r
        ]

    -- On a consistent poller, where epoll_ctl fails neither for lack of memory or watches nor for a
    -- descriptor that is not open or cannot be watched, a switch of a channel whose descriptor no
    -- other channel holds does not reach LOG_SYSFATAL by a double ADD or by a MOD of what is not
    -- there: it gives the channel its new mask, registers it, leaves the
    -- other channels as they were, and the kernel still watches exactly the added channels, each
    -- for the events of its mask.
    pub switch_channel_lem : SwitchEnds s p w
    switch_channel_lem = elim (Index-cases (s.heap p).index) [
      | inl e ↦ switch_add fresh e (inl refl) (fresh_unwatched e)
      | inr (inl e) ↦ switch_added e
      | inr (inr e) ↦ switch_add deleted e (inr refl) (added_watch deleted e (λ b. ground arith))
    ]
