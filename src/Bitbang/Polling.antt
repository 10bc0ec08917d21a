-- ===== src/Bitbang/Polling.antt =====
-- The polling loops of remote_bitbang.c pass over any number of answers that leave them nothing
-- to do.
use riscv_dbg.Common.{ℕ, zero, suc, ◌≡◌, refl, List, ◌∷◌, ◌++◌, some, replicate}
use riscv_dbg.Bitbang.{
  eagain, failed_fd, fd, AcceptAnswer, accepted, accept_fails, ReadAnswer, got, read_fails,
  WriteAnswer, wrote, wrote_nothing, set_nonblock, accept_call, read_call, write_call, Call, Server,
  done,
}
use riscv_dbg.Bitbang.Loops.{accept_loop, read_loop, write_loop}

pub read_loop_polls :
    (n c : ℕ) (rest : List ReadAnswer) (s : Server)
    → (cs : List Call) × (read_loop (replicate n (read_fails eagain) ++ got c ∷ rest) s
        ≡ done (some c) (record s { reads = rest; calls = cs }))
unfolding read_loop
read_loop_polls zero c rest s = (read_call s.client_fd ∷ s.calls, refl)
read_loop_polls (suc n) c rest s = read_loop_polls n c rest (record s {
  reads = replicate n (read_fails eagain) ++ got c ∷ rest;
  calls = read_call s.client_fd ∷ s.calls;
})

pub write_loop_polls :
    (m c : ℕ) (rest : List WriteAnswer) (s : Server)
    → (cs : List Call) × (write_loop c (replicate m wrote_nothing ++ wrote ∷ rest) s
        ≡ done tt (record s { writes = rest; sent = c ∷ s.sent; calls = cs }))
unfolding write_loop
write_loop_polls zero c rest s = (write_call s.client_fd c ∷ s.calls, refl)
write_loop_polls (suc m) c rest s = write_loop_polls m c rest (record s {
  writes = replicate m wrote_nothing ++ wrote ∷ rest;
  calls = write_call s.client_fd c ∷ s.calls;
})

pub accept_loop_polls :
    (n k : ℕ) (rest : List AcceptAnswer) (s : Server)
    → (cs : List Call) × (accept_loop (replicate n (accept_fails eagain) ++ accepted k ∷ rest) s
        ≡ done tt (record s { client_fd = fd k; accepts = rest; calls = cs }))
unfolding accept_loop
accept_loop_polls zero k rest s = (set_nonblock (fd k) ∷ accept_call s.socket_fd ∷ s.calls, refl)
accept_loop_polls (suc n) k rest s = accept_loop_polls n k rest (record s {
  client_fd = failed_fd;
  accepts = replicate n (accept_fails eagain) ++ accepted k ∷ rest;
  calls = accept_call s.socket_fd ∷ s.calls;
})
