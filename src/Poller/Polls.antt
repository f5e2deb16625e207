-- ===== src/Poller/Polls.antt =====
-- net/Epoller.cc, `poll`: runs of it, and the list of events that grows.
use dserver.Prelude.{
  ℕ, ◌*◌, ◌≤◌, ◌<◌, ◌≡◌, refl, sym, ap, true, List, [], ◌∷◌, ◌++◌, if◌then◌else◌, ltb, ◌==◌, length,
  arith, map, append-nil,
}
use dserver.Channel.{Revents}
use dserver.Poller.{Epoll, Poller, Waited, reported, wait_failed, poll}
use dserver.Poller.Invariant.{IsConsistent}
use dserver.Poller.Reports.{Reports, fill_active_channels_lem}

module _ (ep : Epoll) where
  -- The reports of a call.
  abbrev pub reports_of : Waited ep → List (ℕ × Revents)
  reports_of (reported events) = events
  reports_of (wait_failed errno) = []

  no_Reports : (s : Poller ep) → Reports ep [] s s
  no_Reports s = record { same_kernel = refl; same_channels = refl; reported = λ q. refl }

  -- A call of poll on a consistent poller, for which epoll_wait reports no more events than the
  -- list has room for, puts the channels of the reports behind the active ones, in order, stores in
  -- each the flags of its last report, changes nothing else, and keeps the poller consistent. An
  -- error and a call without reports change nothing. The list has then room for more events than
  -- were reported, and never for fewer than before.
  pub poll_lem :
      (s : Poller ep) (size : ℕ) (active : List ℕ) (w : Waited ep)
      → IsConsistent ep s
      → 0 < size
      → length (reports_of w) ≤ size
      → let t = poll ep s size active w in
        (t.0 ≡ active ++ map (λ e. e.0) (reports_of w))
        × Reports ep (reports_of w) s t.1
        × IsConsistent ep t.1
        × (length (reports_of w) < t.2)
        × (size ≤ t.2)
  unfolding poll
  poll_lem s size active (wait_failed errno) v h k =
      (sym (append-nil active), no_Reports s, v, omega arith, omega arith)
  poll_lem s size active (reported []) v h k =
      (sym (append-nil active), no_Reports s, v, omega arith, omega arith)
  poll_lem s size active (reported (event ∷ events)) v h k =
      let (e, r, c) = fill_active_channels_lem ep s (event ∷ events) v in
      let some_left : ltb 0 (length (event ∷ events)) ≡ true = ground arith in
      let n = length (event ∷ events) in
      let more : n < (if n == size then size * 2 else size) = ground (arith, k, h) in
      let kept : size ≤ (if n == size then size * 2 else size) = ground arith in
      rw some_left (ap (λ l. active ++ l) e, r, c, more, kept)
