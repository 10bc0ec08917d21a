-- ===== src/Top/Debugger.antt =====
-- A transfer on the system bus from the request of the debugger to the answer of the bus.
use riscv_dbg.Common.{◌≡◌, ◌∙◌, ap, arith, Bool, false}
use riscv_dbg.Mem.{Config, Access}
use riscv_dbg.Csrs.{Inputs}
use riscv_dbg.Csrs.Step.{csr_read_write}
use riscv_dbg.Sba.{idle, Bus, fsm, fsm_case, handle_size, handle_alignment, sbbusy_o, next_address}
use riscv_dbg.Top.{wired}
use riscv_dbg.Top
use riscv_dbg.Top.Joined.{
  Joined, sba_config, bus_request, held_request, driven, strobed, step, Cycle,
}
use riscv_dbg.Top.Launch.{starts, launched, access-launched}

-- What the access tells the registers in Idle.
idle_driven :
    (c : Config) (e : Bool) (i : Inputs) (b : Bus) (s : Joined)
    → s.sba_q ≡ idle
    → ((driven c e i b s).sbbusy_i ≡ false)
      × ((driven c e i b s).sbaddress_i ≡ (held_request c s.top.csrs).sbaddress_i)
      × ((driven c e i b s).sberror_valid_i ≡ false)
unfolding driven sbbusy_o fsm fsm_case handle_size handle_alignment next_address bus_request
idle_driven c e i b s here = ground (arith, here)

-- In Idle a transfer starts exactly behind an accepted write of SBData0, a write of SBAddress0 with
-- `sbreadonaddr` or a read of SBData0 with `sbreadondata`, with no error of the bus pending.
pub step-starts :
    (c : Config) (e : Bool) (i : Inputs) (a : Access) (b : Bus) (s : Joined)
    → s.sba_q ≡ idle
    → (step c e i a b s).1.sba_q ≡ starts i s.top.csrs
unfolding step strobed driven wired launched csr_read_write starts
step-starts c e i a b s here =
    let (free, _, _) = idle_driven c e i b s here in
    ap (λ q. (fsm (sba_config c e) q (strobed c e i a b s) b).state_d) here
    ∙ access-launched c e (wired c (driven c e i b s) a s.top) b s.top.csrs free
