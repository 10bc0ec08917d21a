-- ===== src/Csrs/Sound.antt =====
-- The shape of the registers of src/dm_csrs.sv, kept by every cycle.
use riscv_dbg.Common.{
  ℕ, ◌+◌, ◌*◌, ◌/◌, ◌%◌, ◌^◌, ◌<◌, ◌≡◌, refl, arith, Bool, true, false, ◌==◌, length,
}
use native.Mathlib.Nat.{mod-lt, one-le-pow}
use riscv_dbg.Mem.{Config, clog2, data_count, prog_buf_size}
use riscv_dbg.Mem.Lanes.{length-update_word}
use riscv_dbg.Dmi.{dtm_read, dtm_write}
use riscv_dbg.Csrs.{
  DmCsr, data_reg, progbuf_reg, haltsum_reg, dmcontrol, dmstatus, hartinfo, abstractcs, command,
  abstractauto, next_dm, sbcs, sbaddress0, sbaddress1, sbdata0, sbdata1, unmapped, Csrs, Inputs,
  Dmcontrol, accepted, dm_csr,
}
use riscv_dbg.Csrs.Status.{hartsel_of}
use riscv_dbg.Csrs.Access.{read_csr, write_csr, refuse_busy, refuse_sb}
use riscv_dbg.Csrs.Cases.{by_operation}
use riscv_dbg.Csrs.Step.{
  defaults, access, legal_dmcontrol, csr_read_write, posedge, registered, reset,
}

-- The fields that are not implemented are 0, and the number of the hart is below the power of two
-- that covers the harts.
pub record IsLegal (c : Config) (d : Dmcontrol) : Type 0 where
  pub low : d.hartsello < 2 ^ 10
  pub selects : hartsel_of d < 2 ^ clog2 c.nr_harts
  pub constants :
      (d.hasel ≡ false)
      × (d.hartreset ≡ false)
      × (d.ackhavereset ≡ false)
      × (d.setresethaltreq ≡ false)
      × (d.clrresethaltreq ≡ false)
      × (d.zero1 ≡ false)
      × (d.zero0 ≡ 0)

pub record IsSized (s : Csrs) : Type 0 where
  pub data_size : length s.data_q ≡ data_count
  pub progbuf_size : length s.progbuf_q ≡ prog_buf_size

pub record IsSound (c : Config) (s : Csrs) : Type 0 where
  pub legal : IsLegal c s.dmcontrol_q
  pub sized : IsSized s

masked_number : (x n : ℕ) → (x % 2 ^ n) / 2 ^ 10 * 2 ^ 10 + x % 2 ^ n % 2 ^ 10 < 2 ^ n
masked_number x n = let small = mod-lt x (one-le-pow n 2 (omega arith)) in omega (arith, small)

legal_dmcontrol-IsLegal :
    (c : Config) (i : Inputs) (q d : Dmcontrol) → IsLegal c (legal_dmcontrol c i q d)
unfolding legal_dmcontrol
legal_dmcontrol-IsLegal c i q d = record {
  low = omega arith;
  selects = masked_number (hartsel_of d) (clog2 c.nr_harts);
  constants = (refl, refl, refl, refl, refl, refl, refl);
}

read-IsSized :
    (r : DmCsr) (c : Config) (i : Inputs) (s : Csrs)
    → IsSized s
    → IsSized (read_csr r c i s (defaults i s)).next
unfolding read_csr refuse_busy refuse_sb defaults
read-IsSized (data_reg k) c i s h = ground (arith, h.data_size, h.progbuf_size)
read-IsSized (progbuf_reg k) c i s h = ground (arith, h.data_size, h.progbuf_size)
read-IsSized (haltsum_reg k) c i s h = ground (arith, h.data_size, h.progbuf_size)
read-IsSized dmcontrol c i s h = ground (arith, h.data_size, h.progbuf_size)
read-IsSized dmstatus c i s h = ground (arith, h.data_size, h.progbuf_size)
read-IsSized hartinfo c i s h = ground (arith, h.data_size, h.progbuf_size)
read-IsSized abstractcs c i s h = ground (arith, h.data_size, h.progbuf_size)
read-IsSized command c i s h = ground (arith, h.data_size, h.progbuf_size)
read-IsSized abstractauto c i s h = ground (arith, h.data_size, h.progbuf_size)
read-IsSized next_dm c i s h = ground (arith, h.data_size, h.progbuf_size)
read-IsSized sbcs c i s h = ground (arith, h.data_size, h.progbuf_size)
read-IsSized sbaddress0 c i s h = ground (arith, h.data_size, h.progbuf_size)
read-IsSized sbaddress1 c i s h = ground (arith, h.data_size, h.progbuf_size)
read-IsSized sbdata0 c i s h = ground (arith, h.data_size, h.progbuf_size)
read-IsSized sbdata1 c i s h = ground (arith, h.data_size, h.progbuf_size)
read-IsSized unmapped c i s h = ground (arith, h.data_size, h.progbuf_size)

write-IsSized :
    (r : DmCsr) (c : Config) (i : Inputs) (s : Csrs)
    → IsSized s
    → IsSized (write_csr r c i s (defaults i s)).next
unfolding write_csr refuse_busy refuse_sb defaults
write-IsSized (data_reg k) c i s h = ground (
  arith,
  h.data_size,
  h.progbuf_size,
  length-update_word s.data_q (i.dmi_req_addr % 2) (λ w. i.dmi_req_data),
)
write-IsSized (progbuf_reg k) c i s h = ground (
  arith,
  h.data_size,
  h.progbuf_size,
  length-update_word s.progbuf_q (i.dmi_req_addr % 8) (λ w. i.dmi_req_data),
)
write-IsSized (haltsum_reg k) c i s h = ground (arith, h.data_size, h.progbuf_size)
write-IsSized dmcontrol c i s h = ground (arith, h.data_size, h.progbuf_size)
write-IsSized dmstatus c i s h = ground (arith, h.data_size, h.progbuf_size)
write-IsSized hartinfo c i s h = ground (arith, h.data_size, h.progbuf_size)
write-IsSized abstractcs c i s h = ground (arith, h.data_size, h.progbuf_size)
write-IsSized command c i s h = ground (arith, h.data_size, h.progbuf_size)
write-IsSized abstractauto c i s h = ground (arith, h.data_size, h.progbuf_size)
write-IsSized next_dm c i s h = ground (arith, h.data_size, h.progbuf_size)
write-IsSized sbcs c i s h = ground (arith, h.data_size, h.progbuf_size)
write-IsSized sbaddress0 c i s h = ground (arith, h.data_size, h.progbuf_size)
write-IsSized sbaddress1 c i s h = ground (arith, h.data_size, h.progbuf_size)
write-IsSized sbdata0 c i s h = ground (arith, h.data_size, h.progbuf_size)
write-IsSized sbdata1 c i s h = ground (arith, h.data_size, h.progbuf_size)
write-IsSized unmapped c i s h = ground (arith, h.data_size, h.progbuf_size)

access-IsSized : (c : Config) (i : Inputs) (s : Csrs) → IsSized s → IsSized (access c i s).next
unfolding access defaults
access-IsSized c i s h =
    let r = dm_csr i.dmi_req_addr in
    by_operation (λ b o. IsSized o.next) (accepted i) (i.dmi_req_op == dtm_read)
      (i.dmi_req_op == dtm_write) true true (ground arith)
      (record { data_size = h.data_size; progbuf_size = h.progbuf_size }) (read-IsSized r c i s h)
      (write-IsSized r c i s h)

reset-IsSized : IsSized reset
unfolding reset
reset-IsSized = record { data_size = refl; progbuf_size = refl }

-- What `dmcontrol` is while the module is not active.
inactive-IsLegal : (c : Config) (b : Bool) → IsLegal c (record reset.dmcontrol_q { dmactive = b })
unfolding reset
inactive-IsLegal c b = record {
  low = omega arith;
  selects = one-le-pow (clog2 c.nr_harts) 2 (omega arith);
  constants = (refl, refl, refl, refl, refl, refl, refl);
}

next-IsSound :
    (c : Config) (i : Inputs) (s : Csrs)
    → length i.data_i ≡ data_count
    → IsSized s
    → IsSound c (csr_read_write c i s).next
unfolding csr_read_write
next-IsSound c i s two h =
    let a = access-IsSized c i s h in
    record {
      legal = legal_dmcontrol-IsLegal c i s.dmcontrol_q (access c i s).next.dmcontrol_q;
      sized = ground (arith, a.data_size, a.progbuf_size);
    }

registered-IsSound :
    (c : Config) (active : Bool) (n : Csrs) → IsSound c n → IsSound c (registered c active n)
unfolding registered
registered-IsSound c true n h = record {
  legal = h.legal;
  sized = record { data_size = h.sized.data_size; progbuf_size = h.sized.progbuf_size };
}
registered-IsSound c false n h = record {
  legal = inactive-IsLegal c n.dmcontrol_q.dmactive;
  sized = record { data_size = reset-IsSized.data_size; progbuf_size = reset-IsSized.progbuf_size };
}

-- The fields of `dmcontrol` that are not implemented stay 0, its hart number stays below the power
-- of two that covers the harts, and the data registers and the program buffer keep their lengths:
-- after the reset, and after every cycle in which the harts hand over as many data words.
pub posedge-IsSound :
    (c : Config) (i : Inputs) (s : Csrs)
    → length i.data_i ≡ data_count
    → IsSound c s
    → IsSound c reset × IsSound c (posedge c i s)
unfolding posedge
posedge-IsSound c i s two h = (
  record { legal = inactive-IsLegal c false; sized = reset-IsSized },
  registered-IsSound c s.dmcontrol_q.dmactive (csr_read_write c i s).next
      (next-IsSound c i s two h.sized),
)
