-- ===== src/Mem/Examples.antt =====
-- The theorems on the debug memory at concrete commands.
use riscv_dbg.Common.{
  zero, suc, ◌-◌, ◌*◌, ◌/◌, ◌^◌, ◌∙◌, ap, ltb, ℕ, ◌≡◌, refl, arith, true, false, [], ◌∷◌, ◌==◌,
  if◌then◌else◌,
}
use riscv_dbg.Common.Bytes.{byte_at}
use riscv_dbg.Mem.{
  Config, Request, Access, Mem, not_supported, idle, go, bit, hart_index, hart_valid, hart_sel_len,
  aligned, max_aar,
}
use riscv_dbg.Mem.Commands.{abstract_cmd, access_register, write_register, default_words}
use riscv_dbg.Rom
use riscv_dbg.Rom.Fetch
use riscv_dbg.Mem.Fetch.{answered, answered-rom}
use riscv_dbg.Mem.Hart.{Bus, Hart}
use native.Mathlib.Nat.{pow-suc, one-le-pow}
use riscv_dbg.Csrs.Pack.{bit-half, zero_bit}
use riscv_dbg.Mem.Window.{Port, data_window}
use riscv_dbg.Mem.Control.{
  control, control_case, accept, going, halted_aligned, raises_exception, writes_to,
}
use riscv_dbg.Mem.Memory.{posedge, rdata_d, word_at}
use riscv_dbg.Mem.Lifecycle.{issued, look, IsCommand, NotGoing, NotHalted, watch, command_runs}
use riscv_dbg.Mem.Resume.{IsResume, acknowledges, NotResuming, resume_runs}
use riscv_dbg.Mem.Memory.{cycles}
use riscv_dbg.Mem.Guards.{error_of, is_error, control-error_of, Starts, idle-Starts, flags-selected}

-- A memory of one word that every address reaches.
abbrev one_word : Bus
one_word = record {
  Memory = ℕ;
  load_value = λ size address m. m;
  store_value = λ size address value m. value;
}

-- A hart with `s1` = 17 and 42 in the memory.
abbrev hart : Hart one_word
hart = record { regs = λ k. if k == 9 then 17 else 0; fregs = λ k. 0; csrs = λ k. 0; memory = 42 }

abbrev one_hart : Config
one_hart = record {
  nr_harts = 1;
  selectable_harts = λ h. true;
  has_snd_scratch = true;
  wide = false;
  wide_access = false;
  past_end = true;
}

-- `s1` from the data register, `s1` to the data register, and `mscratch` to it.
abbrev write_s1 : ℕ
write_s1 = 0x00231009

abbrev read_s1 : ℕ
read_s1 = 0x00221009

-- The registers of the debug module ask for the command, and hart 0 is halted.
abbrev asks : Request
asks = record {
  ndmreset_i = false;
  hartsel_i = 0;
  haltreq_i = λ h. false;
  resumereq_i = λ h. false;
  clear_resumeack_i = false;
  progbuf_i = [];
  data_i = 42 ∷ 0 ∷ [];
  cmd_valid_i = true;
  cmd_i = write_s1;
}

abbrev halted : Mem
halted = record {
  state_q = idle;
  halted_q = λ h. h == 0;
  resuming_q = λ h. false;
  fwd_rom_q = false;
  rdata_q = 0;
  word_enable32_q = false;
}

abbrev silent : Access
silent = record { req_i = false; we_i = false; addr_i = 0; wdata_i = 0; be_i = 0 }

abbrev writes : ℕ → Access
writes x = record { req_i = true; we_i = true; addr_i = x; wdata_i = 0; be_i = 15 }

halted-IsCommand : IsCommand one_hart asks halted
unfolding abstract_cmd access_register write_register default_words max_aar aligned hart_index
    hart_sel_len
halted-IsCommand = record {
  valid = refl;
  supported = refl;
  halted = refl;
  stays = refl;
  no_reset = refl;
}

command_runs_example :
    (look (control one_hart asks silent halted) ≡ (false, false, false, false))
    × (watch (
          cycles one_hart
            (issued asks)
            (posedge one_hart asks silent halted)
            (silent ∷ writes 0x108 ∷ silent ∷ writes 0x100 ∷ []))
        ≡ (
          (true, true, false, false)
              ∷ (true, true, false, false)
              ∷ (true, false, false, false)
              ∷ (true, false, false, false)
              ∷ [],
          idle,
        ))
unfolding raises_exception going halted_aligned writes_to NotGoing NotHalted hart_index hart_sel_len
command_runs_example =
    command_runs one_hart asks halted silent (silent ∷ []) (writes 0x108) (silent ∷ [])
      (writes 0x100) refl halted-IsCommand refl (refl, refl, tt) refl refl (refl, refl, tt) refl
      refl

-- The same request with a command that is reserved.
abbrev reserved : Request
reserved = record asks { cmd_i = 0x03000000 }

control-error_of_example :
    ((control one_hart reserved silent halted).cmderror_o ≡ not_supported)
    × ((control one_hart reserved silent halted).cmderror_valid_o ≡ true)
unfolding error_of is_error raises_exception writes_to abstract_cmd
control-error_of_example = control-error_of one_hart reserved silent halted

idle-Starts_example : Starts one_hart asks halted go
unfolding control control_case accept posedge abstract_cmd access_register write_register max_aar
    aligned hart_index hart_sel_len raises_exception writes_to
idle-Starts_example = idle-Starts one_hart asks silent halted go refl refl

-- Hart 0 polls its flags while it is to go.
abbrev polls : Access
polls = record { req_i = true; we_i = false; addr_i = 0x400; wdata_i = 0; be_i = 15 }

abbrev ordered : Mem
ordered = record halted { state_q = go }

flags-selected_example :
    byte_at 0 (rdata_d one_hart asks polls ordered (control one_hart asks polls ordered)) ≡ 1
unfolding hart_index hart_sel_len control control_case going raises_exception writes_to abstract_cmd
    access_register write_register max_aar
flags-selected_example =
    flags-selected one_hart asks polls ordered 0 (omega arith) (omega arith) refl refl refl

-- The registers ask hart 0 to resume.
abbrev lets_go : Request
lets_go = record asks { cmd_valid_i = false; resumereq_i = λ h. h == 0 }

lets_go-IsResume : IsResume one_hart lets_go
unfolding aligned hart_index hart_sel_len hart_valid
lets_go-IsResume = record {
  asked = refl;
  no_halt = refl;
  no_command = refl;
  no_clear = refl;
  no_reset = refl;
  exists = refl;
  selectable = refl;
}

resume_runs_example :
    let run = cycles one_hart lets_go halted (silent ∷ silent ∷ writes 0x110 ∷ silent ∷ []) in
    (watch run ≡ (
      (false, false, false, false)
          ∷ (true, false, true, false)
          ∷ (true, false, true, false)
          ∷ (true, false, true, false)
          ∷ [],
      idle,
    ))
    × (run.1.halted_q 0 ≡ false)
    × (aligned one_hart run.1.resuming_q 0 ≡ true)
unfolding raises_exception halted_aligned writes_to NotResuming acknowledges aligned hart_index
    hart_sel_len
resume_runs_example =
    resume_runs one_hart lets_go halted silent (silent ∷ []) (writes 0x110) silent refl
      lets_go-IsResume refl refl (refl, refl, (refl, refl, tt)) refl refl refl refl

-- A bus that puts a value into the lowest lanes.
ones_bit : (n k : ℕ) → bit k (2 ^ n - 1) ≡ ltb k n
ones_bit zero k = zero_bit k ∙ ground arith
ones_bit (suc n) zero =
    let double : 2 ^ suc n ≡ 2 * 2 ^ n = omega (arith, pow-suc 2 n) in
    let some = one-le-pow n 2 (omega arith) in ground (arith, double, some)
ones_bit (suc n) (suc k) =
    let double : 2 ^ suc n ≡ 2 * 2 ^ n = omega (arith, pow-suc 2 n) in
    let some = one-le-pow n 2 (omega arith) in
    let half : (2 ^ suc n - 1) / 2 ≡ 2 ^ n - 1 = omega (arith, double, some) in
    bit-half k (2 ^ suc n - 1) ∙ (ap (bit k) half ∙ (ones_bit n k ∙ ground arith))

abbrev port : Port one_hart
port = record {
  drive = λ size address value. record {
    req_i = true;
    we_i = true;
    addr_i = address;
    wdata_i = value;
    be_i = 2 ^ 2 ^ size - 1;
  };
  fetch = λ size address. record {
    req_i = true;
    we_i = false;
    addr_i = address;
    wdata_i = 0;
    be_i = 0;
  };
  take = λ size answer. answer;
  drive_write = λ size address value. (refl, refl);
  drive_address = λ size address value. refl;
  drive_lanes = λ size address value k here small. ones_bit (2 ^ size) k;
  drive_bytes = λ size address value k here inside. refl;
  fetch_read = λ size address. (refl, refl);
  fetch_address = λ size address. refl;
  take_bytes = λ size answer k inside. refl;
}

abbrev behind_port : Bus
behind_port = data_window one_hart port asks halted 0

-- A hart with `s1` = 0x1234 and 42 in the first data register.
abbrev with_data : Hart behind_port
with_data = record {
  regs = λ k. if k == 9 then 0x1234 else 0;
  fregs = λ k. 0;
  csrs = λ k. 0;
  memory = 42 ∷ 7 ∷ [];
}

-- A fetch of the entry for exceptions.
abbrev fetches : Access
fetches = record { req_i = true; we_i = false; addr_i = 0x1808; wdata_i = 0; be_i = 15 }

answered-rom_example : answered one_hart asks fetches halted 0 ≡ 0x0840006f
unfolding Rom.Fetch.word_at Rom.words Rom.addr_width
answered-rom_example = answered-rom one_hart asks fetches halted 0 refl refl
