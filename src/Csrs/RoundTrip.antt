-- ===== src/Csrs/RoundTrip.antt =====
-- A read behind a write of a register of src/dm_csrs.sv.
use riscv_dbg.Common.{
  ℕ, zero, suc, ◌/◌, ◌%◌, ◌^◌, ◌<◌, ◌≡◌, ◌∙◌, refl, ap, arith, Bool, true, false, List, [], ◌∷◌,
  length,
}
use riscv_dbg.Mem.{Config}
use riscv_dbg.Mem.Memory.{update_word, word_at}
use riscv_dbg.Dmi.{dtm_read, dtm_write}
use riscv_dbg.Csrs.{
  DmCsr, data_reg, progbuf_reg, haltsum_reg, dmcontrol, dmstatus, hartinfo, abstractcs, command,
  abstractauto, next_dm, sbcs, sbaddress0, sbaddress1, sbdata0, sbdata1, unmapped, Csrs, Inputs,
  Outcome, accepted, dm_csr,
}
use riscv_dbg.Csrs.Access.{read_csr, write_csr, refuse_busy, refuse_sb}
use riscv_dbg.Csrs.Step.{defaults, access, csr_read_write, posedge, registered}
use riscv_dbg.Csrs.Busy.{read_waits, write_waits}
use riscv_dbg.Csrs.Answers.{read_refused, write_refused, read_needs_bus, write_needs_bus, refuses}
use riscv_dbg.Csrs.Sound.{IsSized}

-- The registers that keep a word as it was written.
unfoldable pub stores : DmCsr → Bool
stores (data_reg k) = true
stores (progbuf_reg k) = true
stores sbaddress0 = true
stores sbaddress1 = true
stores sbdata0 = true
stores sbdata1 = true
stores _ = false

-- What such a register holds.
content : DmCsr → ℕ → Csrs → ℕ
content (data_reg k) a s = word_at s.data_q (a % 2)
content (progbuf_reg k) a s = word_at s.progbuf_q (a % 8)
content sbaddress0 a s = s.sbaddr_q % 2 ^ 32
content sbaddress1 a s = s.sbaddr_q / 2 ^ 32
content sbdata0 a s = s.sbdata_q % 2 ^ 32
content sbdata1 a s = s.sbdata_q / 2 ^ 32
content _ a s = 0

word_at-update_word :
    (l : List ℕ) (i v : ℕ) → i < length l → word_at (update_word l i (λ w. v)) i ≡ v
unfolding update_word
word_at-update_word [] i v small = absurd (omega (arith, small))
word_at-update_word (w ∷ l) zero v small = refl
word_at-update_word (w ∷ l) (suc i) v small = word_at-update_word l i v (omega (arith, small))

-- The index of a data register is the lowest bit of its address.
data_reg_index : (a k : ℕ) → dm_csr a ≡ data_reg k → k % 2 ≡ a % 2
unfolding dm_csr
data_reg_index a k e = ground arith

read-content :
    (x : DmCsr) (c : Config) (i : Inputs) (s : Csrs)
    → dm_csr i.dmi_req_addr ≡ x
    → stores x ≡ true
    → read_refused x i s ≡ false
    → (read_csr x c i s (defaults i s)).resp_data ≡ content x i.dmi_req_addr s
unfolding read_csr refuse_busy refuse_sb defaults stores content read_waits read_needs_bus
read-content (data_reg k) c i s at keeps free =
    let same = data_reg_index i.dmi_req_addr k at in ground (arith, same)
read-content (progbuf_reg k) c i s at keeps free = ground arith
read-content sbaddress0 c i s at keeps free = ground arith
read-content sbaddress1 c i s at keeps free = ground arith
read-content sbdata0 c i s at keeps free = ground arith
read-content sbdata1 c i s at keeps free = ground arith
read-content (haltsum_reg k) c i s at keeps free = absurd (ground arith)
read-content dmcontrol c i s at keeps free = absurd (ground arith)
read-content dmstatus c i s at keeps free = absurd (ground arith)
read-content hartinfo c i s at keeps free = absurd (ground arith)
read-content abstractcs c i s at keeps free = absurd (ground arith)
read-content command c i s at keeps free = absurd (ground arith)
read-content abstractauto c i s at keeps free = absurd (ground arith)
read-content next_dm c i s at keeps free = absurd (ground arith)
read-content sbcs c i s at keeps free = absurd (ground arith)
read-content unmapped c i s at keeps free = absurd (ground arith)

write-content :
    (x : DmCsr) (c : Config) (i : Inputs) (s : Csrs)
    → IsSized s
    → stores x ≡ true
    → write_refused x i s ≡ false
    → i.dmi_req_data < 2 ^ 32
    → content x i.dmi_req_addr (write_csr x c i s (defaults i s)).next ≡ i.dmi_req_data
unfolding write_csr refuse_busy refuse_sb defaults stores content write_waits write_needs_bus
write-content (data_reg k) c i s h keeps free small =
    let at =
      word_at-update_word s.data_q (i.dmi_req_addr % 2) i.dmi_req_data
        (omega (arith, h.data_size)) in
    ground (arith, at)
write-content (progbuf_reg k) c i s h keeps free small =
    let at =
      word_at-update_word s.progbuf_q (i.dmi_req_addr % 8) i.dmi_req_data
        (omega (arith, h.progbuf_size)) in
    ground (arith, at)
write-content sbaddress0 c i s h keeps free small = ground arith
write-content sbaddress1 c i s h keeps free small = ground arith
write-content sbdata0 c i s h keeps free small = ground arith
write-content sbdata1 c i s h keeps free small = ground arith
write-content (haltsum_reg k) c i s h keeps free small = absurd (ground arith)
write-content dmcontrol c i s h keeps free small = absurd (ground arith)
write-content dmstatus c i s h keeps free small = absurd (ground arith)
write-content hartinfo c i s h keeps free small = absurd (ground arith)
write-content abstractcs c i s h keeps free small = absurd (ground arith)
write-content command c i s h keeps free small = absurd (ground arith)
write-content abstractauto c i s h keeps free small = absurd (ground arith)
write-content next_dm c i s h keeps free small = absurd (ground arith)
write-content sbcs c i s h keeps free small = absurd (ground arith)
write-content unmapped c i s h keeps free small = absurd (ground arith)

-- These registers behind the cycle of an active module, if neither the harts nor the system bus
-- hand over data.
record IsKept (s t : Csrs) : Type 0 where
  kept_data : s.data_q ≡ t.data_q
  kept_progbuf : s.progbuf_q ≡ t.progbuf_q
  kept_address : s.sbaddr_q ≡ t.sbaddr_q
  kept_sbdata : s.sbdata_q ≡ t.sbdata_q

posedge-IsKept :
    (c : Config) (i : Inputs) (s : Csrs)
    → s.dmcontrol_q.dmactive ≡ true
    → i.data_valid_i ≡ false
    → i.sbdata_valid_i ≡ false
    → IsKept (posedge c i s) (access c i s).next
unfolding posedge registered csr_read_write
posedge-IsKept c i s active no_data no_sbdata = ground arith

content-IsKept : (x : DmCsr) (a : ℕ) (s t : Csrs) → IsKept s t → content x a s ≡ content x a t
unfolding content
content-IsKept (data_reg k) a s t h = ap (λ l. word_at l (a % 2)) h.kept_data
content-IsKept (progbuf_reg k) a s t h = ap (λ l. word_at l (a % 8)) h.kept_progbuf
content-IsKept sbaddress0 a s t h = ap (λ (v : ℕ). v % 2 ^ 32) h.kept_address
content-IsKept sbaddress1 a s t h = ap (λ (v : ℕ). v / 2 ^ 32) h.kept_address
content-IsKept sbdata0 a s t h = ap (λ (v : ℕ). v % 2 ^ 32) h.kept_sbdata
content-IsKept sbdata1 a s t h = ap (λ (v : ℕ). v / 2 ^ 32) h.kept_sbdata
content-IsKept _ a s t h = refl

free_write :
    (i : Inputs) (s : Csrs)
    → accepted i ≡ true
    → i.dmi_req_op ≡ dtm_write
    → refuses i s ≡ false
    → write_refused (dm_csr i.dmi_req_addr) i s ≡ false
unfolding refuses
free_write i s taken op free = ground arith

free_read :
    (i : Inputs) (s : Csrs)
    → accepted i ≡ true
    → i.dmi_req_op ≡ dtm_read
    → refuses i s ≡ false
    → read_refused (dm_csr i.dmi_req_addr) i s ≡ false
unfolding refuses
free_read i s taken op free = ground arith

pub access-write :
    (c : Config) (i : Inputs) (s : Csrs)
    → accepted i ≡ true
    → i.dmi_req_op ≡ dtm_write
    → access c i s ≡ write_csr (dm_csr i.dmi_req_addr) c i s (defaults i s)
unfolding access
access-write c i s taken op = rw (taken, op) refl

access-read :
    (c : Config) (i : Inputs) (s : Csrs)
    → accepted i ≡ true
    → i.dmi_req_op ≡ dtm_read
    → access c i s ≡ read_csr (dm_csr i.dmi_req_addr) c i s (defaults i s)
unfolding access
access-read c i s taken op = rw (taken, op) refl

-- An accepted request of the operation.
pub record IsRequest (op : ℕ) (i : Inputs) : Type 0 where
  pub taken : accepted i ≡ true
  pub does : i.dmi_req_op ≡ op

-- A word that is written to a data register, the program buffer or one of sbaddress0, sbaddress1,
-- sbdata0 and sbdata1 of an active module is read back in the next cycle, if neither request is refused and in the
-- cycle of the write neither the harts nor the system bus hand over data.
pub write-read :
    (c : Config) (w r : Inputs) (s : Csrs)
    → IsSized s
    → s.dmcontrol_q.dmactive ≡ true
    → IsRequest dtm_write w
    → IsRequest dtm_read r
    → r.dmi_req_addr ≡ w.dmi_req_addr
    → stores (dm_csr w.dmi_req_addr) ≡ true
    → w.dmi_req_data < 2 ^ 32
    → refuses w s ≡ false
    → refuses r (posedge c w s) ≡ false
    → w.data_valid_i ≡ false
    → w.sbdata_valid_i ≡ false
    → (csr_read_write c r (posedge c w s)).resp_data ≡ w.dmi_req_data
unfolding csr_read_write
write-read c w r s h active writes reads same keeps small free_w free_r no_data no_sbdata =
    let t = posedge c w s in
    let x = dm_csr w.dmi_req_addr in
    let a = w.dmi_req_addr in
    let shown = access-read c r t reads.taken reads.does in
    let stored = access-write c w s writes.taken writes.does in
    let at : dm_csr r.dmi_req_addr ≡ x = ap dm_csr same in
    let may_write : write_refused x w s ≡ false = free_write w s writes.taken writes.does free_w in
    let may_read : read_refused (dm_csr r.dmi_req_addr) r t ≡ false =
      free_read r t reads.taken reads.does free_r in
    ap (λ (o : Outcome). o.resp_data) shown
    ∙ (read-content (dm_csr r.dmi_req_addr) c r t refl (rw at keeps) may_read
        ∙ (rw same (
            content-IsKept x a t (access c w s).next (posedge-IsKept c w s active no_data no_sbdata)
            ∙ (ap (λ (o : Outcome). content x a o.next) stored
                ∙ write-content x c w s h keeps may_write small))))
