-- ===== src/Mem/Memory.antt =====
-- The accesses of the harts to the debug memory: the read part of `p_rw_logic`, `p_data_write`, the
-- word multiplexer and the registers of src/dm_mem.sv.
use riscv_dbg.Common.{
  ℕ, zero, suc, ◌+◌, ◌-◌, ◌*◌, ◌/◌, ◌%◌, ◌^◌, Bool, false, not, ◌&&◌, List, [], ◌∷◌, Option,
  get_elem?, ltb, leb, ◌==◌, if◌then◌else◌, to_bit,
}
use riscv_dbg.Opcodes
use riscv_dbg.Mem.{
  Config, Request, Access, Mem, idle, hart_index, aligned, data_count, prog_buf_size, cmdtype,
  transfer, postexec, bit,
}
use riscv_dbg.Mem.Commands.{list_of, abstract_cmd}
use riscv_dbg.Mem.Control.{Control, control, halted_d, resuming_d, dbg_address}

abbrev pub data_base_addr : ℕ
data_base_addr = 0x380

abbrev data_end_addr : ℕ
data_end_addr = 0x380 + 4 * data_count - 1

abbrev prog_buf_base_addr : ℕ
prog_buf_base_addr = 0x380 - 4 * prog_buf_size

abbrev abstract_cmd_base_addr : ℕ
abstract_cmd_base_addr = prog_buf_base_addr - 4 * 10

abbrev where_to_addr : ℕ
where_to_addr = 0x300

abbrev pub flags_base_addr : ℕ
flags_base_addr = 0x400

abbrev flags_end_addr : ℕ
flags_end_addr = 0x7ff

abbrev pub halt_address : ℕ
halt_address = 0x800

abbrev resume_address : ℕ
resume_address = halt_address + 8

abbrev pub between : (low high x : ℕ) → Bool
between low high x = leb low x && leb x high

-- An entry of an array, and 0 past its end.
abbrev pub word_at : List ℕ → ℕ → ℕ
word_at l i = elim (get_elem? l i) [ Option.none ↦ 0 | Option.some w ↦ w ]

-- Two words of an array, the second in the upper half.
abbrev pair_at : List ℕ → ℕ → ℕ
pair_at l i = word_at l (2 * i + 1) * 2 ^ 32 + word_at l (2 * i)

-- `rdata_d` for `WhereToAddr`.
where_to : Config → Request → Access → Mem → Control → ℕ
unfolding hart_index aligned
where_to c r a s k =
    let resuming =
      if aligned c r.resumereq_i (hart_index c a.wdata_i)
      then Opcodes.jal 0 (resume_address - where_to_addr)
      else s.rdata_q in
    let command =
      if cmdtype r.cmd_i == 0 && not (transfer r.cmd_i) && postexec r.cmd_i
      then Opcodes.jal 0 (prog_buf_base_addr - where_to_addr)
      else Opcodes.jal 0 (abstract_cmd_base_addr - where_to_addr) in
    if k.cmdbusy_o then command else resuming

-- `{6'b0, resume, go}` in the byte of the selected hart.
unfoldable pub flags : Config → Request → Access → Control → ℕ
unfolding hart_index
flags c r a k =
    let sel = hart_index c r.hartsel_i % 2 ^ 12 in
    if dbg_address a / 8 * 8 - flags_base_addr == sel / 8 * 8
    then (to_bit k.resume * 2 + to_bit k.go) * 2 ^ (8 * (sel % 8))
    else 0

-- `rdata_d`. Within a range the index is cast to the width that numbers its entries.
unfoldable pub rdata_d : Config → Request → Access → Mem → Control → ℕ
unfolding where_to flags
rdata_d c r a s k =
    let x = dbg_address a in
    if not (a.req_i && not a.we_i)
    then s.rdata_q
    else if x == where_to_addr
    then where_to c r a s k
    else if between data_base_addr data_end_addr x
    then word_at r.data_i (((x / 8 - data_base_addr / 8) * 2 + 1) % 2) * 2 ^ 32
      + word_at r.data_i ((x / 8 - data_base_addr / 8) * 2 % 2)
    else if between prog_buf_base_addr (data_base_addr - 1) x
    then pair_at r.progbuf_i ((x / 8 - prog_buf_base_addr / 8) % 8)
    else if between abstract_cmd_base_addr (prog_buf_base_addr - 1) x
    then pair_at (list_of (abstract_cmd c r.cmd_i).0) ((x / 8 - abstract_cmd_base_addr / 8) % 8)
    else if between flags_base_addr flags_end_addr x
    then flags c r a k
    else s.rdata_q

-- `rdata_o`, with the double word of the ROM.
unfoldable pub rdata_o : Config → ℕ → Mem → ℕ
rdata_o c rom_rdata s =
    let word_mux = if s.fwd_rom_q then rom_rdata else s.rdata_q in
    if c.wide
    then word_mux
    else if s.word_enable32_q
    then word_mux / 2 ^ 32 % 2 ^ 32
    else word_mux % 2 ^ 32

-- `w[8 * k +: 8] = v[7:0]`
unfoldable pub set_byte : (k v w : ℕ) → ℕ
set_byte k v w = w / 2 ^ (8 * (k + 1)) * 2 ^ (8 * (k + 1)) + v % 256 * 2 ^ (8 * k) + w % 2 ^ (8 * k)

unfoldable pub update_word : List ℕ → ℕ → (ℕ → ℕ) → List ℕ
update_word [] i f = []
update_word (w ∷ ws) zero f = f w ∷ ws
update_word (w ∷ ws) (suc i) f = w ∷ update_word ws i f

-- The loop over the lanes from `lane` on: `lanes` of them are left.
unfoldable pub write_lanes : (lanes lane idx be wdata : ℕ) → List ℕ → List ℕ
unfolding update_word set_byte
write_lanes zero lane idx be wdata words = words
write_lanes (suc lanes) lane idx be wdata words =
    let i = idx + lane / 4 in
    let written = update_word words i (set_byte (lane % 4) (wdata / 2 ^ (8 * lane))) in
    write_lanes lanes (lane + 1) idx be wdata
      (if bit lane be && ltb i data_count then written else words)

-- `p_data_write`: whether the harts write the data registers, and their new value.
unfoldable pub data_valid_o : Access → Bool
data_valid_o a = a.req_i && a.we_i && between data_base_addr data_end_addr (dbg_address a)

unfoldable pub data_o : Config → Request → Access → List ℕ
unfolding data_valid_o write_lanes
data_o c r a =
    let idx = (dbg_address a / 4 - data_base_addr / 4) % 2 in
    if data_valid_o a
    then write_lanes (if c.wide then 8 else 4) 0 idx a.be_i a.wdata_i r.data_i
    else r.data_i

-- The asynchronous reset.
unfoldable pub reset : Mem
reset = record {
  state_q = idle;
  halted_q = λ h. false;
  resuming_q = λ h. false;
  fwd_rom_q = false;
  rdata_q = 0;
  word_enable32_q = false;
}

-- A rising clock edge.
unfoldable pub posedge : Config → Request → Access → Mem → Mem
posedge c r a s =
    let k = control c r a s in
    record {
      state_q = k.state_d;
      halted_q = λ h. c.selectable_harts h && halted_d c r a s h;
      resuming_q = λ h. c.selectable_harts h && resuming_d c r a s h;
      fwd_rom_q = leb halt_address (dbg_address a);
      rdata_q = rdata_d c r a s k;
      word_enable32_q = bit 2 a.addr_i;
    }

-- Cycles in a row while the registers of the debug module hold their request: what the control sets
-- in each, and the state behind the last.
unfoldable pub cycles : Config → Request → Mem → List Access → List Control × Mem
cycles c r s [] = ([], s)
cycles c r s (a ∷ as_) =
    let (later, last) = cycles c r (posedge c r a s) as_ in (control c r a s ∷ later, last)
