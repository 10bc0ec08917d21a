-- ===== src/Sba/Examples.antt =====
-- The theorems on the system bus access at concrete requests.
use riscv_dbg.Common.{◌+◌, ◌≡◌, refl, arith, true, false}
use riscv_dbg.Sba.{
  Config, Request, Bus, be_mask, be_idx, be_idx_width, bus_width, sbaccess_mask, be_idx_masked,
  master_wdata_o, sbdata_o,
}
use riscv_dbg.Sba.Control.{IsSupported}
use riscv_dbg.Sba.Lanes.{lanes-IsSupported}
use riscv_dbg.Common.Bytes.{byte_at}

abbrev narrow_bus : Config
narrow_bus = record { wide = false; read_byte_enable = true }

-- A write of the two bytes at 0x1006.
abbrev half_word : Request
half_word = record {
  sbaddress_i = 0x1006;
  sbaddress_write_valid_i = false;
  sbreadonaddr_i = false;
  sbautoincrement_i = true;
  sbaccess_i = 1;
  sbreadondata_i = false;
  sbdata_i = 0xbeef;
  sbdata_read_valid_i = false;
  sbdata_write_valid_i = true;
}

abbrev odd_word : Request
odd_word = record half_word { sbaccess_i = 2 }

abbrev no_answer : Bus
no_answer = record {
  master_gnt_i = false;
  master_r_valid_i = false;
  master_r_err_i = false;
  master_r_other_err_i = false;
  master_r_rdata_i = 0;
}

abbrev grant : Bus
grant = record no_answer { master_gnt_i = true }

abbrev bad_address : Bus
bad_address = record no_answer { master_r_valid_i = true; master_r_err_i = true }

half_word-IsSupported : IsSupported narrow_bus half_word
unfolding IsSupported be_idx_width
half_word-IsSupported = (omega arith, refl)

write_lanes :
    (be_mask narrow_bus 1 (be_idx narrow_bus half_word) ≡ 0b1100)
    × (master_wdata_o narrow_bus half_word ≡ 0xbeef0000)
unfolding be_mask be_idx be_idx_width bus_width master_wdata_o be_idx_masked sbaccess_mask
write_lanes = (refl, refl)

lanes-IsSupported_example :
    (byte_at (be_idx narrow_bus half_word + 1) (master_wdata_o narrow_bus half_word)
      ≡ byte_at 1 0xbeef)
    × (byte_at 1 (sbdata_o narrow_bus half_word grant)
        ≡ byte_at (be_idx narrow_bus half_word + 1) 0)
lanes-IsSupported_example =
    lanes-IsSupported narrow_bus half_word grant 1 half_word-IsSupported (omega arith)
