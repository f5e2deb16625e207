-- ===== src/Poller/Removal.antt =====
-- net/Channel.cc `remove` and net/Epoller.cc `removeChannel`, on a consistent poller.
use dserver.Prelude.{ℕ, ◌≡◌, refl, ap, ◌∙◌, inl, inr, true, false, none, some, arith}
use dserver.Channel.{Index, fresh, added, deleted, Channel, is_none_event}
use dserver.Poller.{
  Epoll, Poller, set_at, set_index, has_channel, erase_by, erase_channel, remove_channel, remove,
}
use dserver.Poller.Invariant.{watch_of, IsConsistent, Forgets, Forgets-IsConsistent}
use dserver.Poller.Switches.{Index-cases, set_at_self, update_del_lem}

module _ (ep : Epoll) where
  open ep use {watched}

  abbrev unlooped : Channel → Channel
  unlooped c = record c { added_to_loop = false }

  abbrev unlooped_poller : Poller ep → ℕ → Poller ep
  unlooped_poller s p = record s { heap = set_at s.heap p (unlooped (s.heap p)) }

  abbrev unmapped : Poller ep → ℕ → Poller ep
  unmapped s p = record s {
    channels = set_at s.channels (s.heap p).fd none;
    heap = set_at s.heap p (unlooped (s.heap p));
  }

  erase_channel-index :
      (s : Poller ep) (p : ℕ) (i : Index)
      → (s.heap p).index ≡ i
      → erase_channel ep (unlooped_poller s p) p ≡ erase_by ep (unmapped s p) p i
  unfolding erase_channel
  erase_channel-index s p i e =
      ap
        (λ c.
          erase_by ep (record (unlooped_poller s p) { channels = set_at s.channels c.fd none }) p
            c.index)
        (set_at_self s.heap p (unlooped (s.heap p)))
      ∙ ap (erase_by ep (unmapped s p) p) e

  module _ (s : Poller ep) (p : ℕ) (v : IsConsistent ep s)
      (m : s.channels (s.heap p).fd ≡ some p) where
    abbrev forgotten : Channel
    forgotten = record (unlooped (s.heap p)) { index = fresh }

    watch :
        (i : Index)
        → (s.heap p).index ≡ i
        → watched s.kernel (s.heap p).fd ≡ watch_of p (record (s.heap p) { index = i })
    watch i e =
        v.follows (s.heap p).fd p m ∙ ap (λ j. watch_of p (record (s.heap p) { index = j })) e

    erase_added :
        (s.heap p).index ≡ added
        → (t : Poller ep) × (erase_by ep (unmapped s p) p added ≡ t) × Forgets ep s p forgotten t
    unfolding erase_by set_index
    erase_added e =
        let (k, d, x) =
          update_del_lem ep (unmapped s p) p (unlooped (s.heap p))
            (set_at_self s.heap p (unlooped (s.heap p))) v.resources
            (λ b. ground (arith, watch added e, b)) in
        (
          set_index ep (record (unmapped s p) { kernel = k }) p fresh,
          ap (λ u. set_index ep u p fresh) d,
          record {
            now_fresh = refl;
            forgets = λ q. ground arith;
            unmaps = λ j. refl;
            unwatches = x;
          },
        )

    erase_deleted :
        (s.heap p).index ≡ deleted
        → (t : Poller ep) × (erase_by ep (unmapped s p) p deleted ≡ t) × Forgets ep s p forgotten t
    unfolding erase_by set_index
    erase_deleted e = (
      set_index ep (unmapped s p) p fresh,
      refl,
      record {
        now_fresh = refl;
        forgets = λ q. ground arith;
        unmaps = λ j. refl;
        unwatches = λ j. ground (arith, watch deleted e);
      },
    )

    erase-Forgets :
        (t : Poller ep) × (erase_channel ep (unlooped_poller s p) p ≡ t)
        × Forgets ep s p forgotten t
    erase-Forgets = elim (Index-cases (s.heap p).index) [
      | inl e ↦ absurd (v.listed (s.heap p).fd p m e)
      | inr (inl e) ↦ let (t, d, r) = erase_added e in (t, erase_channel-index s p added e ∙ d, r)
      | inr (inr e) ↦
          let (t, d, r) = erase_deleted e in (t, erase_channel-index s p deleted e ∙ d, r)
    ]

    unlooped_self : set_at s.heap p (unlooped (s.heap p)) p ≡ unlooped (s.heap p)
    unlooped_self = set_at_self s.heap p (unlooped (s.heap p))

    remove_asserts :
        is_none_event (s.heap p) ≡ true
        → remove ep s p ≡ some (erase_channel ep (unlooped_poller s p) p)
    unfolding remove remove_channel has_channel
    remove_asserts n = let l = v.listed (s.heap p).fd p m in ground (arith, unlooped_self)

    -- On a consistent poller, removing a channel that is registered and waits for nothing meets
    -- every assert: it takes the channel out of the table, makes it new again, leaves the other
    -- channels as they were, and the kernel still watches exactly the added channels, so not the
    -- removed one.
    pub remove_lem :
        is_none_event (s.heap p) ≡ true
        → (t : Poller ep) × (remove ep s p ≡ some t)
          × IsConsistent ep t
          × (t.channels (s.heap p).fd ≡ none)
          × (watched t.kernel (s.heap p).fd ≡ none)
          × ((q : ℕ)
              → t.heap q
                ≡ set_at s.heap p (record (s.heap p) { added_to_loop = false; index = fresh }) q)
    remove_lem n =
        let (t, d, r) = erase-Forgets in
        (
          t,
          remove_asserts n ∙ ap some d,
          Forgets-IsConsistent ep v m r,
          ground (arith, r.unmaps (s.heap p).fd),
          ground (arith, r.unwatches (s.heap p).fd),
          r.forgets,
        )
