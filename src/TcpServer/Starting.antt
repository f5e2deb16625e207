-- ===== src/TcpServer/Starting.antt =====
-- net/TcpServer.cc, `start`: one acceptor for each loop of the pool's threads.
use dserver.Prelude.{ℕ, zero, suc, ◌≡◌, refl, ap, some, ◌++◌, length}
use dserver.TcpServer.{
  loops_from, start_pool, get_all_loops, TcpServer, new_server, set_thread_num, start,
}

length-loops_from : (start_loop : ℕ → ℕ) (i n : ℕ) → length (loops_from start_loop i n) ≡ n
length-loops_from start_loop i zero = refl
length-loops_from start_loop i (suc n) = ap suc (length-loops_from start_loop (suc i) n)

-- A new server that is started, with its number of threads set or left at 0, gives an acceptor to
-- the loop of each of its threads, in order, and has no other: a server whose number of threads is
-- 0 does not accept any connection. Started again, it gives each loop a further acceptor.
start_lem :
    (start_loop : ℕ → ℕ) (n : ℕ)
    → (s : TcpServer) × (start start_loop (set_thread_num new_server n) ≡ some s)
      × (s.acceptors ≡ loops_from start_loop 0 n)
      × (length s.acceptors ≡ n)
      × ((again : TcpServer) × (start start_loop s ≡ some again)
          × (again.acceptors ≡ s.acceptors ++ s.acceptors))
unfolding start set_thread_num start_pool get_all_loops
start_lem start_loop n = (_, refl, refl, length-loops_from start_loop 0 n, (_, refl, refl))
