-- ===== src/Mem/Fetch.antt =====
-- The debug ROM in src/dm_mem.sv: which of the two it has, and what a hart fetches of it.
use riscv_dbg.Common.{
  ℕ, ◌*◌, ◌/◌, ◌%◌, ◌^◌, ◌<◌, ◌≡◌, ◌∙◌, refl, ap, arith, Bool, true, false, leb, if◌then◌else◌,
}
use native.Mathlib.Nat.{mod-eq_of_lt}
use riscv_dbg.Rom
use riscv_dbg.Rom.{addr_width, clock}
use riscv_dbg.Rom.Fetch.{half, word_at, word_at-bound, fetch_word}
use riscv_dbg.Mem.{Config, Request, Access, Mem, bit}
use riscv_dbg.Mem.Control.{dbg_address}
use riscv_dbg.Mem.Memory.{rdata_o, posedge, halt_address}

-- The register of the ROM that the module has, behind an access.
rom_addr_q : Config → Access → ℕ → ℕ
unfolding clock
rom_addr_q c a q = clock c.has_snd_scratch a.req_i a.addr_i q

-- What the bus reads in the cycle behind an access; `q` is the register of the ROM before it.
unfoldable pub answered : Config → Request → Access → Mem → ℕ → ℕ
unfolding rdata_o Rom.rdata_o rom_addr_q posedge
answered c r a s q = rdata_o c (Rom.rdata_o c.has_snd_scratch (rom_addr_q c a q)) (posedge c r a s)

-- The word multiplexer of a narrow bus takes the half of the address.
narrow_half :
    (x rom : ℕ) → (if bit 2 x then rom / 2 ^ 32 % 2 ^ 32 else rom % 2 ^ 32) ≡ half x rom % 2 ^ 32
unfolding half
narrow_half x rom = ground arith

mux_case :
    (c : Config) (r : Request) (a : Access) (s : Mem) (rom : ℕ)
    → leb halt_address (dbg_address a) ≡ true
    → rdata_o c rom (posedge c r a s)
      ≡ (if c.wide then rom else (if bit 2 a.addr_i then rom / 2 ^ 32 % 2 ^ 32 else rom % 2 ^ 32))
unfolding rdata_o posedge
mux_case c r a s rom here = rw here refl

wide_case :
    (wide : Bool) (x rom w : ℕ)
    → half x rom ≡ w
    → w < 2 ^ 32
    → (if wide
        then half x (if wide then rom else half x rom % 2 ^ 32)
        else (if wide then rom else half x rom % 2 ^ 32))
      ≡ w
wide_case true x rom w e small = e
wide_case false x rom w e small = ap (λ (v : ℕ). v % 2 ^ 32) e ∙ mod-eq_of_lt small

-- A hart that accesses an address from HaltAddress on reads, in the next cycle, the word of the C
-- array of the ROM that the module has, at the address counted by 4 modulo the size of the decoded
-- space, or 0 behind the end of the array: on a narrow bus as the answer, on a wide one as the half
-- of the answer that the address selects.
pub answered-rom :
    (c : Config) (r : Request) (a : Access) (s : Mem) (q : ℕ)
    → a.req_i ≡ true
    → leb halt_address (dbg_address a) ≡ true
    → let snd_scratch = c.has_snd_scratch in
      let read = answered c r a s q in
      (if c.wide then half a.addr_i read else read)
      ≡ word_at snd_scratch (a.addr_i / 4 % (2 * 2 ^ addr_width snd_scratch))
unfolding answered rom_addr_q
answered-rom c r a s q asks here =
    let snd_scratch = c.has_snd_scratch in
    let rom = Rom.rdata_o snd_scratch (clock snd_scratch a.req_i a.addr_i q) in
    let k = a.addr_i / 4 % (2 * 2 ^ addr_width snd_scratch) in
    let shown =
      mux_case c r a s rom here
      ∙ ap (λ (v : ℕ). if c.wide then rom else v) (narrow_half a.addr_i rom) in
    let word : half a.addr_i rom ≡ word_at snd_scratch k =
      rw asks (fetch_word snd_scratch a.addr_i q) in
    ap (λ (v : ℕ). if c.wide then half a.addr_i v else v) shown
    ∙ wide_case c.wide a.addr_i rom (word_at snd_scratch k) word (word_at-bound snd_scratch k)
