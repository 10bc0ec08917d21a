-- ===== src/Top/Data.antt =====
-- A write of a hart to the data registers: from src/dm_mem.sv to src/dm_csrs.sv.
use riscv_dbg.Common.{
  ℕ, ◌+◌, ◌-◌, ◌*◌, ◌<◌, ◌≡◌, ◌∙◌, ap, arith, true, false, ◌&&◌, leb, ltb, if◌then◌else◌, length,
}
use riscv_dbg.Common.Bytes.{byte_at}
use riscv_dbg.Mem.{Config, Access, data_count, bit}
use riscv_dbg.Mem.Memory.{word_at, data_valid_o}
use riscv_dbg.Mem.Lanes.{bus_lanes, first_word, data_o-byte}
use riscv_dbg.Csrs.{Csrs, Inputs}
use riscv_dbg.Csrs.Step.{posedge, csr_read_write, registered}
use riscv_dbg.Top.{Top, request, wired, step}

handed_over :
    (c : Config) (i : Inputs) (s : Csrs)
    → s.dmcontrol_q.dmactive ≡ true
    → i.data_valid_i ≡ true
    → (posedge c i s).data_q ≡ i.data_i
unfolding posedge csr_read_write registered
handed_over c i s active valid = ground arith

-- In an active module a write of a hart to the data registers reaches them, whatever the debugger
-- does in the cycle: each byte whose lane the bus has and enables is the hart's, and each other byte
-- is as it was, also where the debugger writes the register in this cycle.
pub step-stored :
    (c : Config) (i : Inputs) (a : Access) (s : Top) (n j : ℕ)
    → s.csrs.dmcontrol_q.dmactive ≡ true
    → data_valid_o a ≡ true
    → length s.csrs.data_q ≡ data_count
    → n < data_count
    → j < 4
    → let k = 4 * (n - first_word a) + j in
      byte_at j (word_at (step c i a s).csrs.data_q n) ≡ (
        if leb (first_word a) n && ltb k (bus_lanes c) && bit k a.be_i
        then byte_at k a.wdata_i
        else byte_at j (word_at s.csrs.data_q n))
unfolding step wired request
step-stored c i a s n j active valid two inside small =
    ap (λ l. byte_at j (word_at l n)) (handed_over c (wired c i a s) s.csrs active valid)
    ∙ data_o-byte c (request c false s.csrs) a n j two inside small
    ∙ ap
        (λ b.
          if b
            && leb (first_word a) n
            && ltb (4 * (n - first_word a) + j) (bus_lanes c)
            && bit (4 * (n - first_word a) + j) a.be_i
          then byte_at (4 * (n - first_word a) + j) a.wdata_i
          else byte_at j (word_at s.csrs.data_q n))
        valid
