-- ===== src/Poller/Reports.antt =====
-- net/Epoller.cc `fillActiveChannels`: what epoll_wait reports reaches the channels.
use dserver.Prelude.{ℕ, ◌≡◌, refl, sym, ap, ◌∙◌, List, [], ◌∷◌, ◌==◌, if◌then◌else◌, arith, map}
use dserver.Channel.{Revents}
use dserver.Poller.{Epoll, Poller, set_at, fill_active_channels}
use dserver.Poller.Invariant.{IsConsistent}

-- The flags that the last report on the channel `q` carries, `r` when there is none.
abbrev pub last_report : List (ℕ × Revents) → ℕ → Revents → Revents
last_report [] q r = r
last_report ((p, r') ∷ es) q r = last_report es q (if p == q then r' else r)

module _ (ep : Epoll) where
  -- `t` is `s` with the flags `es` stored.
  pub record Reports (es : List (ℕ × Revents)) (s t : Poller ep) : Type 0 where
    pub same_kernel : t.kernel ≡ s.kernel
    pub same_channels : t.channels ≡ s.channels
    pub reported :
        (q : ℕ) → t.heap q ≡ record (s.heap q) { revents = last_report es q (s.heap q).revents }

  abbrev stored_at : Poller ep → ℕ → Revents → Poller ep
  stored_at s p r = record s { heap = set_at s.heap p (record (s.heap p) { revents = r }) }

  Reports-step :
      (p : ℕ) (r : Revents) (es : List (ℕ × Revents)) (s t : Poller ep)
      → Reports es (stored_at s p r) t
      → Reports ((p, r) ∷ es) s t
  Reports-step p r es s t h = record {
    same_kernel = h.same_kernel;
    same_channels = h.same_channels;
    reported = λ q. ground (arith, h.reported q);
  }

  fill_active_channels-Reports :
      (es : List (ℕ × Revents)) (s : Poller ep) → Reports es s (fill_active_channels ep s es).1
  unfolding fill_active_channels
  fill_active_channels-Reports [] s = record {
    same_kernel = refl;
    same_channels = refl;
    reported = λ q. refl;
  }
  fill_active_channels-Reports ((p, r) ∷ es) s =
      Reports-step p r es s (fill_active_channels ep (stored_at s p r) es).1
        (fill_active_channels-Reports es (stored_at s p r))

  fill_active_channels-map :
      (es : List (ℕ × Revents)) (s : Poller ep)
      → (fill_active_channels ep s es).0 ≡ map (λ e. e.0) es
  unfolding fill_active_channels
  fill_active_channels-map [] s = refl
  fill_active_channels-map ((p, r) ∷ es) s =
      ap (λ l. p ∷ l) (fill_active_channels-map es (stored_at s p r))

  module _ {es : List (ℕ × Revents)} {s t : Poller ep} (v : IsConsistent ep s)
      (r : Reports es s t) where
    open ep use {watched}

    Reports-IsConsistent : IsConsistent ep t
    Reports-IsConsistent = record {
      resources = v.resources;
      known = λ j q e.
          ap (λ c. c.fd) (r.reported q) ∙ v.known j q (sym (ap (λ f. f j) r.same_channels) ∙ e);
      listed = λ j q e h.
          v.listed j q (sym (ap (λ f. f j) r.same_channels) ∙ e)
            (sym (ap (λ c. c.index) (r.reported q)) ∙ h);
      mapped = λ q h.
          rw (r.same_channels, r.reported q)
            (v.mapped q (λ b. h (ap (λ c. c.index) (r.reported q) ∙ b)));
      follows = λ j q e.
          rw (r.same_kernel, r.reported q)
            (v.follows j q (sym (ap (λ f. f j) r.same_channels) ∙ e));
      absent = λ j e. rw r.same_kernel (v.absent j (sym (ap (λ f. f j) r.same_channels) ∙ e));
    }

  -- A poll hands the loop the channels in the order of the reports, and stores in each channel
  -- the flags of its last report; it changes nothing else, and keeps a consistent poller so.
  pub fill_active_channels_lem :
      (s : Poller ep) (es : List (ℕ × Revents))
      → IsConsistent ep s
      → ((fill_active_channels ep s es).0 ≡ map (λ e. e.0) es)
        × Reports es s (fill_active_channels ep s es).1
        × IsConsistent ep (fill_active_channels ep s es).1
  fill_active_channels_lem s es v = (
    fill_active_channels-map es s,
    fill_active_channels-Reports es s,
    Reports-IsConsistent v (fill_active_channels-Reports es s),
  )
