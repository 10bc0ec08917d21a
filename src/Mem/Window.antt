-- ===== src/Mem/Window.antt =====
-- The data registers as a hart sees them: the data window of src/dm_mem.sv, through the bus of the hart.
use riscv_dbg.Common.{
  ℕ, zero, suc, ◌+◌, ◌-◌, ◌*◌, ◌/◌, ◌%◌, ◌^◌, ◌≤◌, ◌<◌, ◌≡◌, ◌∙◌, refl, ap, subst, sym, arith, Bool,
  true, false, ◌&&◌, ltb, leb, ◌==◌, if◌then◌else◌, List, length, Bool-cases, inl, inr,
}
use riscv_dbg.Common.Bytes.{byte_at}
use riscv_dbg.Mem.{Config, Request, Access, Mem, data_addr, data_count, bit}
use riscv_dbg.Mem.Control.{Control, control, dbg_address}
use riscv_dbg.Mem.Memory.{word_at, data_o, data_valid_o, rdata_o, rdata_d, posedge}
use riscv_dbg.Mem.Hart.{Bus}
use riscv_dbg.Mem.Lanes.{bus_lanes, first_word, data_o-byte}

-- The bus between a hart and the module, which is not part of the repository: the access that a store
-- of `2 ^ size` bytes makes, the one that a load makes, and what a load takes of the answer. An
-- aligned store enables the lanes of its bytes only and puts the value there; a load keeps its
-- bytes, whatever it makes of the others.
pub record Port (c : Config) : Type 0 where
  pub drive : (size address value : ℕ) → Access
  pub fetch : (size address : ℕ) → Access
  pub take : (size answer : ℕ) → ℕ
  pub drive_write :
      (size address value : ℕ)
      → ((drive size address value).req_i ≡ true) × ((drive size address value).we_i ≡ true)
  pub drive_address :
      (size address value : ℕ) → dbg_address (drive size address value) ≡ address % 2 ^ 12
  pub drive_lanes :
      (size address value k : ℕ)
      → address % 8 ≡ 0
      → size ≤ 3
      → bit k (drive size address value).be_i ≡ ltb k (2 ^ size)
  pub drive_bytes :
      (size address value k : ℕ)
      → address % 8 ≡ 0
      → k < 2 ^ size
      → byte_at k (drive size address value).wdata_i ≡ byte_at k value
  pub fetch_read :
      (size address : ℕ) → ((fetch size address).req_i ≡ true) × ((fetch size address).we_i ≡ false)
  pub fetch_address : (size address : ℕ) → (fetch size address).addr_i ≡ address
  pub take_bytes :
      (size answer k : ℕ) → k < 2 ^ size → byte_at k (take size answer) ≡ byte_at k answer

-- The data registers behind the port, while the module holds the rest of the request `r` and is in
-- the state `s`: a load reads what the memory answers in the next cycle.
abbrev pub data_window : (c : Config) → Port c → Request → Mem → ℕ → Bus
data_window c p r s rom = record {
  Memory = List ℕ;
  load_value = λ size address m.
      p.take size (rdata_o c rom (posedge c (record r { data_i = m }) (p.fetch size address) s));
  store_value =
      λ size address value m. data_o c (record r { data_i = m }) (p.drive size address value);
}

-- The window is there.
abbrev pub IsWindow : ℕ → Type 0
IsWindow address = (address % 8 ≡ 0) × (address % 2 ^ 12 ≡ data_addr)

stored_case :
    (c : Config) (valid enabled : Bool) (first i j k wbyte vbyte old : ℕ) (size : ℕ)
    → valid ≡ true
    → first ≡ 0
    → k ≡ j
    → enabled ≡ ltb j (2 ^ size)
    → (j < 2 ^ size → wbyte ≡ vbyte)
    → 2 ^ size ≤ bus_lanes c
    → (if valid && leb first i && ltb k (bus_lanes c) && enabled then wbyte else old)
      ≡ (if ltb j (2 ^ size) then vbyte else old)
stored_case c valid enabled first i j k wbyte vbyte old size v f e b w fits =
    elim (Bool-cases (ltb j (2 ^ size))) [
      | inl h ↦
          let same = w (ground (arith, h)) in
          let inside : ltb j (bus_lanes c) ≡ true = ground (arith, h, fits) in
          rw (v, f, e, b, h, same, inside) (ground arith)
      | inr h ↦ rw (v, f, e, b, h) (ground arith)
    ]

-- A store of `2 ^ size` bytes through the window puts them into the data registers.
pub stored :
    (c : Config) (p : Port c) (r : Request) (size address value j : ℕ)
    → IsWindow address
    → size ≤ 3
    → 2 ^ size ≤ bus_lanes c
    → length r.data_i ≡ data_count
    → j < 8
    → byte_at (j % 4) (word_at (data_o c r (p.drive size address value)) (j / 4))
      ≡ (if ltb j (2 ^ size) then byte_at j value else byte_at (j % 4) (word_at r.data_i (j / 4)))
unfolding data_valid_o
stored c p r size address value j here sized fits two small =
    let a = p.drive size address value in
    let at : dbg_address a ≡ data_addr = p.drive_address size address value ∙ here.1 in
    let first : first_word a ≡ 0 = rw at refl in
    let lane : 4 * (j / 4 - first_word a) + j % 4 ≡ j = rw first (omega arith) in
    let valid : data_valid_o a ≡ true =
      rw ((p.drive_write size address value).0, (p.drive_write size address value).1, at) refl in
    data_o-byte c r a (j / 4) (j % 4) two (omega (arith, small)) (omega arith)
    ∙ stored_case c (data_valid_o a) _ (first_word a) (j / 4) j _ _ (byte_at j value)
        (byte_at (j % 4) (word_at r.data_i (j / 4))) size valid first lane
        (ap (λ (k : ℕ). bit k a.be_i) lane ∙ p.drive_lanes size address value j here.0 sized)
        (λ h.
          ap (λ (k : ℕ). byte_at k a.wdata_i) lane ∙ p.drive_bytes size address value j here.0 h)
        fits

-- Byte `j` of two words in a row.
pair_bytes :
    (low high j : ℕ)
    → low < 2 ^ 32
    → j < 8
    → byte_at j (high * 2 ^ 32 + low) ≡ byte_at (j % 4) (if j / 4 == 0 then low else high)
unfolding byte_at
pair_bytes low high zero small inside = omega (arith, small)
pair_bytes low high (suc zero) small inside = omega (arith, small)
pair_bytes low high (suc (suc zero)) small inside = omega (arith, small)
pair_bytes low high (suc (suc (suc zero))) small inside = omega (arith, small)
pair_bytes low high (suc (suc (suc (suc zero)))) small inside = omega (arith, small)
pair_bytes low high (suc (suc (suc (suc (suc zero))))) small inside = omega (arith, small)
pair_bytes low high (suc (suc (suc (suc (suc (suc zero)))))) small inside = omega (arith, small)
pair_bytes low high (suc (suc (suc (suc (suc (suc (suc zero))))))) small inside =
    omega (arith, small)
pair_bytes low high (suc (suc (suc (suc (suc (suc (suc (suc j)))))))) small inside =
    absurd (omega (arith, inside))

low_bytes : (x j : ℕ) → j < 4 → byte_at j (x % 2 ^ 32) ≡ byte_at j x
unfolding byte_at
low_bytes x zero small = omega arith
low_bytes x (suc zero) small = omega arith
low_bytes x (suc (suc zero)) small = omega arith
low_bytes x (suc (suc (suc zero))) small = omega arith
low_bytes x (suc (suc (suc (suc j)))) small = absurd (omega (arith, small))

-- The answer to a read of the window.
rdata_d-window :
    (c : Config) (r : Request) (a : Access) (s : Mem) (k : Control)
    → a.req_i ≡ true
    → a.we_i ≡ false
    → dbg_address a / 8 ≡ data_addr / 8
    → rdata_d c r a s k ≡ word_at r.data_i 1 * 2 ^ 32 + word_at r.data_i 0
unfolding rdata_d
rdata_d-window c r a s k asks reads at =
    let jump : dbg_address a == 0x300 ≡ false = ground (arith, at) in
    let above : leb 0x380 (dbg_address a) ≡ true = ground (arith, at) in
    let below : leb (dbg_address a) 0x387 ≡ true = ground (arith, at) in
    rw (asks, reads, jump, above, below, at) refl

-- Any address in the data registers: a narrow bus takes the half that the address is in.
pub rdata_o-data :
    (c : Config) (r : Request) (a : Access) (s : Mem) (rom : ℕ)
    → a.req_i ≡ true
    → a.we_i ≡ false
    → dbg_address a / 8 ≡ data_addr / 8
    → let both = word_at r.data_i 1 * 2 ^ 32 + word_at r.data_i 0 in
      rdata_o c rom (posedge c r a s) ≡ (
        if c.wide then both else (if bit 2 a.addr_i then both / 2 ^ 32 % 2 ^ 32 else both % 2 ^ 32))
unfolding rdata_o posedge
rdata_o-data c r a s rom asks reads at =
    let shown = rdata_d-window c r a s (control c r a s) asks reads at in
    let in_ram : leb 0x800 (dbg_address a) ≡ false = ground (arith, at) in rw (in_ram, shown) refl

even_word : (x : ℕ) → x % 8 ≡ 0 → bit 2 x ≡ false
even_word x h = ground (arith, h)

pub rdata_o-window :
    (c : Config) (r : Request) (a : Access) (s : Mem) (rom : ℕ)
    → a.req_i ≡ true
    → a.we_i ≡ false
    → IsWindow a.addr_i
    → rdata_o c rom (posedge c r a s) ≡ (
        if c.wide
        then word_at r.data_i 1 * 2 ^ 32 + word_at r.data_i 0
        else (word_at r.data_i 1 * 2 ^ 32 + word_at r.data_i 0) % 2 ^ 32)
rdata_o-window c r a s rom asks reads here =
    let low = even_word a.addr_i here.0 in
    rdata_o-data c r a s rom asks reads (ap (λ (x : ℕ). x / 8) here.1) ∙ rw low refl

pair_words :
    (l : List ℕ) (j : ℕ)
    → j < 8
    → (if j / 4 == 0 then word_at l 0 else word_at l 1) ≡ word_at l (j / 4)
pair_words l j small = elim (Bool-cases (j / 4 == 0)) [
  | inl e ↦ let zeroth : j / 4 ≡ 0 = ground (arith, e) in rw zeroth refl
  | inr e ↦ let first : j / 4 ≡ 1 = ground (arith, e, small) in rw first refl
]

narrowed :
    (wide : Bool) (x j : ℕ)
    → (wide ≡ false → j < 4)
    → byte_at j (if wide then x else x % 2 ^ 32) ≡ byte_at j x
narrowed true x j h = refl
narrowed false x j h = low_bytes x j (h refl)

-- What a load of the window gives.
pub loaded_bytes :
    (c : Config) (p : Port c) (r : Request) (s : Mem) (rom size address j : ℕ)
    → IsWindow address
    → 2 ^ size ≤ bus_lanes c
    → word_at r.data_i 0 < 2 ^ 32
    → j < 2 ^ size
    → byte_at j (p.take size (rdata_o c rom (posedge c r (p.fetch size address) s)))
      ≡ byte_at (j % 4) (word_at r.data_i (j / 4))
loaded_bytes c p r s rom size address j here fits small inside =
    let a = p.fetch size address in
    let both = word_at r.data_i 1 * 2 ^ 32 + word_at r.data_i 0 in
    let lanes : j < 8 = ground (arith, fits, inside) in
    let words =
      pair_bytes (word_at r.data_i 0) (word_at r.data_i 1) j small lanes
      ∙ ap (byte_at (j % 4)) (pair_words r.data_i j lanes) in
    let told =
      rdata_o-window c r a s rom (p.fetch_read size address).0 (p.fetch_read size address).1
        (subst IsWindow (sym (p.fetch_address size address)) here) in
    p.take_bytes size _ j inside
    ∙ ap (byte_at j) told
    ∙ narrowed c.wide both j (λ e. ground (arith, e, fits, inside))
    ∙ words
