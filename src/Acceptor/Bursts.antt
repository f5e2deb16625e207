-- ===== src/Acceptor/Bursts.antt =====
-- net/Acceptor.cc, `handleRead`: a burst of connections, and a process that runs out of descriptors.
use dserver.Prelude.{
  ℕ, zero, suc, ◌≡◌, ◌≢◌, refl, sym, ap, ap₂, ◌∙◌, true, List, [], ◌∷◌, ◌++◌, arith, replicate,
  append_assoc, append-nil,
}
use dserver.TcpConnection.{eagain}
use dserver.Acceptor.{
  emfile, Answer, given, failed, Acceptor, hand_over, close, accepting, filling, reopening,
  Progress, returned, still_in, after_failure, handle_read,
}

-- One turn of the loop, by what the calls answer.
pub data Round : Type 0 where
  -- A connection.
  accepts : ℕ → Round
  -- An error that is neither EAGAIN nor EMFILE.
  fails : (errno : ℕ) → errno ≢ eagain → errno ≢ emfile → Round
  -- No descriptor is left: after some failures each, the freed one is given to a connection, and
  -- then to /dev/null again.
  exhausted : List ℕ → ℕ → List ℕ → ℕ → Round

abbrev failures : List ℕ → List Answer → List Answer
failures [] rest = rest
failures (errno ∷ errnos) rest = failed errno ∷ failures errnos rest

abbrev pub answers : List Round → List Answer → List Answer
answers [] rest = rest
answers (accepts fd ∷ rounds) rest = given fd ∷ answers rounds rest
answers (fails errno n m ∷ rounds) rest = failed errno ∷ answers rounds rest
answers (exhausted before fd after idle ∷ rounds) rest =
    failed emfile ∷ failures before (given fd ∷ failures after (given idle ∷ answers rounds rest))

-- The connections that the callback is to be given.
abbrev pub connections : List Round → List ℕ
connections [] = []
connections (accepts fd ∷ rounds) = fd ∷ connections rounds
connections (_ ∷ rounds) = connections rounds

-- The descriptors that are to be closed, and the one that is kept idle in the end.
abbrev pub turned_away : ℕ → List Round → List ℕ
turned_away idle [] = []
turned_away idle (exhausted before fd after idle' ∷ rounds) = idle ∷ fd ∷ turned_away idle' rounds
turned_away idle (_ ∷ rounds) = turned_away idle rounds

abbrev pub last_idle : ℕ → List Round → ℕ
last_idle idle [] = idle
last_idle idle (exhausted before fd after idle' ∷ rounds) = last_idle idle' rounds
last_idle idle (_ ∷ rounds) = last_idle idle rounds

filling_lem :
    (a : Acceptor) (errnos : List ℕ) (rest : List Answer)
    → handle_read filling a (failures errnos rest) ≡ handle_read filling a rest
unfolding handle_read
filling_lem a [] rest = refl
filling_lem a (errno ∷ errnos) rest = filling_lem a errnos rest

reopening_lem :
    (a : Acceptor) (errnos : List ℕ) (rest : List Answer)
    → handle_read reopening a (failures errnos rest) ≡ handle_read reopening a rest
unfolding handle_read
reopening_lem a [] rest = refl
reopening_lem a (errno ∷ errnos) rest = reopening_lem a errnos rest

other_failure :
    (errno : ℕ) (x y z : Progress) → errno ≢ eagain → errno ≢ emfile → after_failure errno x y z ≡ z
unfolding after_failure
other_failure errno x y z n m = ground (arith, n, m)

-- An acceptor with given lists and a given idle descriptor.
abbrev with_lists : Acceptor → List ℕ → List ℕ → ℕ → Acceptor
with_lists a delivered closed idle = record a {
  delivered = delivered;
  closed = closed;
  idle_fd = idle;
}

handed :
    (a : Acceptor) (fd : ℕ)
    → a.has_callback ≡ true
    → hand_over a fd ≡ record a { delivered = a.delivered ++ (fd ∷ []) }
unfolding hand_over
handed a fd h = rw h refl

-- An acceptor with a callback leaves handleRead when no connection waits. Whatever the calls
-- answered before, its callback was given every connection that came while a descriptor was left,
-- in order; a connection that came when none was left was closed, with the idle descriptor that
-- made room for it; and the idle descriptor is the last one that was opened.
pub handle_read-answers :
    (a : Acceptor) (rounds : List Round) (rest : List Answer)
    → a.has_callback ≡ true
    → handle_read accepting a (answers rounds (failed eagain ∷ rest))
      ≡ returned (record a {
        delivered = a.delivered ++ connections rounds;
        closed = a.closed ++ turned_away a.idle_fd rounds;
        idle_fd = last_idle a.idle_fd rounds;
      })
unfolding handle_read after_failure close
handle_read-answers a [] rest h = sym (
    ap₂ (λ d c. returned (with_lists a d c a.idle_fd)) (append-nil a.delivered)
      (append-nil a.closed))
handle_read-answers a (accepts fd ∷ rounds) rest h =
    ap (λ b. handle_read accepting b (answers rounds (failed eagain ∷ rest))) (handed a fd h)
    ∙ handle_read-answers (record a { delivered = a.delivered ++ (fd ∷ []) }) rounds rest h
    ∙ ap
        (λ d.
          returned (
            with_lists a d (a.closed ++ turned_away a.idle_fd rounds) (last_idle a.idle_fd rounds)))
        (append_assoc a.delivered (fd ∷ []) (connections rounds))
handle_read-answers a (fails errno n m ∷ rounds) rest h =
    other_failure errno _ _ _ n m ∙ handle_read-answers a rounds rest h
handle_read-answers a (exhausted before fd after idle ∷ rounds) rest h =
    filling_lem (close a a.idle_fd) before
      (given fd ∷ failures after (given idle ∷ answers rounds (failed eagain ∷ rest)))
    ∙ reopening_lem (close (record (close a a.idle_fd) { idle_fd = fd }) fd) after
        (given idle ∷ answers rounds (failed eagain ∷ rest))
    ∙ handle_read-answers
        (record a { idle_fd = idle; closed = (a.closed ++ (a.idle_fd ∷ [])) ++ (fd ∷ []) }) rounds
        rest h
    ∙ ap
        (λ c. returned (with_lists a (a.delivered ++ connections rounds) c (last_idle idle rounds)))
        (append_assoc (a.closed ++ (a.idle_fd ∷ [])) (fd ∷ []) (turned_away idle rounds)
          ∙ append_assoc a.closed (a.idle_fd ∷ []) (fd ∷ turned_away idle rounds))

filling_eagain :
    (a : Acceptor) (n : ℕ)
    → handle_read filling a (replicate n (failed eagain)) ≡ still_in filling a
unfolding handle_read
filling_eagain a zero = refl
filling_eagain a (suc n) = filling_eagain a n

-- A process that is out of descriptors when the connection that waited has gone stays in the loop
-- behind EMFILE: however often `accept` answers EAGAIN, it is called again, and the loop's thread
-- does nothing else.
pub handle_read_stuck :
    (a : Acceptor) (n : ℕ)
    → handle_read accepting a (failed emfile ∷ replicate n (failed eagain))
      ≡ still_in filling (close a a.idle_fd)
unfolding handle_read after_failure
handle_read_stuck a n = filling_eagain (close a a.idle_fd) n
