-- ===== src/Bitbang/Loops.antt =====
-- The polling loops of remote_bitbang.c, and the functions made of them.
use riscv_dbg.Common.{ℕ, List, [], ◌∷◌, Option, none, some, if◌then◌else◌, is_set}
use riscv_dbg.Bitbang.{
  eagain, other_errno, failed_fd, fd, AcceptAnswer, accepted, accept_fails, ReadAnswer, got,
  end_of_file, read_fails, WriteAnswer, wrote, wrote_nothing, write_fails, set_nonblock,
  accept_call, read_call, write_call, close_call, Server, done, aborted, waiting, M, Command, ◌>>=◌,
  ◌>>◌, modify, classify, perform, reply, Reply,
}

-- The loop of `rbs_accept`, over the answers of `accept`.
unfoldable pub accept_loop : List AcceptAnswer → M (Unit {0})
accept_loop [] s = waiting s
accept_loop (accepted n ∷ rest) s = done tt (record s {
  client_fd = fd n;
  accepts = rest;
  calls = set_nonblock (fd n) ∷ accept_call s.socket_fd ∷ s.calls;
})
accept_loop (accept_fails eagain ∷ rest) s =
    accept_loop rest (record s {
      client_fd = failed_fd;
      accepts = rest;
      calls = accept_call s.socket_fd ∷ s.calls;
    })
accept_loop (accept_fails (other_errno e) ∷ rest) s =
    aborted (record s {
      client_fd = failed_fd;
      accepts = rest;
      calls = accept_call s.socket_fd ∷ s.calls;
    })

unfoldable pub rbs_accept : M (Unit {0})
rbs_accept s = accept_loop s.accepts s

-- The first loop of `rbs_execute_command`; `none` is its early return.
unfoldable pub read_loop : List ReadAnswer → M (Option ℕ)
read_loop [] s = waiting s
read_loop (got c ∷ rest) s =
    done (some c) (record s { reads = rest; calls = read_call s.client_fd ∷ s.calls })
read_loop (end_of_file ∷ rest) s =
    done none (record s { reads = rest; calls = read_call s.client_fd ∷ s.calls })
read_loop (read_fails eagain ∷ rest) s =
    read_loop rest (record s { reads = rest; calls = read_call s.client_fd ∷ s.calls })
read_loop (read_fails (other_errno e) ∷ rest) s =
    aborted (record s { reads = rest; calls = read_call s.client_fd ∷ s.calls })

-- The `while (1)` around `write`.
unfoldable pub write_loop : ℕ → List WriteAnswer → M (Unit {0})
write_loop c [] s = waiting s
write_loop c (wrote ∷ rest) s =
    done tt
      (record s { writes = rest; sent = c ∷ s.sent; calls = write_call s.client_fd c ∷ s.calls })
write_loop c (wrote_nothing ∷ rest) s =
    write_loop c rest (record s { writes = rest; calls = write_call s.client_fd c ∷ s.calls })
write_loop c (write_fails e ∷ rest) s =
    aborted (record s { writes = rest; calls = write_call s.client_fd c ∷ s.calls })

unfoldable pub send : Reply → M (Unit {0})
send r s = if r.dosend then write_loop r.tosend s.writes s else done tt s

unfoldable pub close_on_quit : Server → Server
close_on_quit s =
    if is_set s.quit
    then record s { client_fd = fd 0; calls = close_call s.client_fd ∷ s.calls }
    else s

-- What follows the first loop, by the label. The reply is made before the `switch` changes the
-- globals: no label changes `tdo`.
unfoldable pub execute : Command → M (Unit {0})
unfolding send close_on_quit
execute command s = (do modify (perform command); send (reply command s); modify close_on_quit) s

-- `execute`, unless the loop returned early.
unfoldable pub execute_read : Option ℕ → M (Unit {0})
unfolding execute
execute_read none = λ s. done tt s
execute_read (some command) = execute (classify command)

unfoldable pub rbs_execute_command : M (Unit {0})
unfolding execute_read
rbs_execute_command = (λ s. read_loop s.reads s) >>= execute_read
