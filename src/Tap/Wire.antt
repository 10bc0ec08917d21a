-- ===== src/Tap/Wire.antt =====
-- The pins that the remote bitbang server drives clock the test access port, as
-- tb/SimJTAG.sv passes them on: a rising TCK is an edge with the levels of TMS and TDI, and a low
-- TRSTN holds the port in reset.
use riscv_dbg.Common.{
  ℕ, ◌+◌, ◌*◌, ◌≡◌, refl, ap, ◌∙◌, arith, Bool, true, false, not, ◌&&◌, List, [], ◌∷◌, map, is_set,
  to_bit, if◌then◌else◌,
}
use riscv_dbg.Bitbang.{Server, ReadAnswer, WriteAnswer, done}
use riscv_dbg.Bitbang.Tick.{Pins, pins, Tick}
use riscv_dbg.Bitbang.Dispatch.{drive}
use riscv_dbg.Bitbang.Session.{
  Exchange, reads_of, writes_of, IsServing, NoQuit, ticks, driven, ticks-driven,
}
use riscv_dbg.Tap.{Tap, posedge, reset}
use riscv_dbg.Tap.Controller.{edges, edges-reset}

-- The port after the pins of one call of `jtag_tick` went from `p` to `q`.
wire : ℕ → Pins → Pins → Tap → Tap
wire idcode_value p q t =
    if not (is_set q.trstn)
    then reset idcode_value
    else if not (is_set p.tck) && is_set q.tck
    then posedge idcode_value (is_set q.tms) (is_set q.tdi) t
    else t

pub follow : ℕ → Pins → List Tick → Tap → Tap
follow idcode_value p [] t = t
follow idcode_value p (k ∷ ks) t =
    follow idcode_value k.outputs ks (wire idcode_value p k.outputs t)

-- The byte that puts the pins at the given levels.
abbrev level_byte : Bool → Bool → Bool → ℕ
level_byte tck tms tdi = b'0' + to_bit tck * 4 + to_bit tms * 2 + to_bit tdi

-- A low and a high TCK for each edge.
abbrev clock_bytes : List (Bool × Bool) → List ℕ
clock_bytes [] = []
clock_bytes ((tms, tdi) ∷ es) = level_byte false tms tdi ∷ level_byte true tms tdi ∷ clock_bytes es

abbrev exchange_bytes : List Exchange → List ℕ
exchange_bytes [] = []
exchange_bytes (x ∷ xs) = x.byte ∷ exchange_bytes xs

levels : (tck tms tdi : Bool) (trstn : ℕ) → Pins
levels tck tms tdi trstn = record {
  tck = to_bit tck;
  tms = to_bit tms;
  tdi = to_bit tdi;
  trstn = trstn;
}

drive-level_byte :
    (tck tms tdi : Bool) (p : Pins) → drive (level_byte tck tms tdi) p ≡ levels tck tms tdi p.trstn
unfolding drive levels
drive-level_byte tck tms tdi p = ground arith

wire_low :
    (idcode_value : ℕ) (tms tdi : Bool) (p : Pins) (t : Tap)
    → p.trstn ≡ 1
    → wire idcode_value p (levels false tms tdi p.trstn) t ≡ t
unfolding wire levels
wire_low idcode_value tms tdi p t h = ground arith

wire_high :
    (idcode_value : ℕ) (tms tdi : Bool) (n : ℕ) (t : Tap)
    → n ≡ 1
    → wire idcode_value (levels false tms tdi n) (levels true tms tdi n) t
      ≡ posedge idcode_value tms tdi t
unfolding wire levels
wire_high idcode_value true true n t h = ground arith
wire_high idcode_value true false n t h = ground arith
wire_high idcode_value false true n t h = ground arith
wire_high idcode_value false false n t h = ground arith

-- Any bytes that clock the edges clock the port: the pins that the server hands over make it
-- take exactly those edges.
follow-driven :
    (idcode_value : ℕ) (es : List (Bool × Bool)) (xs : List Exchange) (p : Pins) (t : Tap)
    → exchange_bytes xs ≡ clock_bytes es
    → p.trstn ≡ 1
    → follow idcode_value p (driven p xs) t ≡ edges idcode_value es t
unfolding follow driven edges levels
follow-driven idcode_value [] [] p t h r = refl
follow-driven idcode_value [] (x ∷ xs) p t h r = cc
follow-driven idcode_value (e ∷ es) [] p t h r = cc
follow-driven idcode_value (e ∷ es) (x ∷ []) p t h r = cc
follow-driven idcode_value ((tms, tdi) ∷ es) (x ∷ y ∷ xs) p t h r =
    let hx : x.byte ≡ level_byte false tms tdi = cc in
    let hy : y.byte ≡ level_byte true tms tdi = cc in
    let rest : exchange_bytes xs ≡ clock_bytes es = cc in
    let low : drive x.byte p ≡ levels false tms tdi p.trstn =
      ap (λ c. drive c p) hx ∙ drive-level_byte false tms tdi p in
    let q = levels false tms tdi p.trstn in
    let up : drive y.byte q ≡ levels true tms tdi p.trstn =
      ap (λ c. drive c q) hy ∙ drive-level_byte true tms tdi q in
    rw (low, up, wire_low idcode_value tms tdi p t r, wire_high idcode_value tms tdi p.trstn t r)
      (follow-driven idcode_value es xs (levels true tms tdi p.trstn)
        (posedge idcode_value tms tdi t) rest r)

-- Six clocks with TMS high, as a client sends them.
abbrev reset_edges : List (Bool × Bool)
reset_edges =
    (true, false)
    ∷ (true, false)
    ∷ (true, false)
    ∷ (true, false)
    ∷ (true, false)
    ∷ (true, false)
    ∷ []

-- From the socket to the port: when a client sends the twelve bytes `26` six times to a serving
-- server whose TRSTn is high, every tick of the simulator returns, and the port is reset, from
-- whatever state it was in.
pub ticks-reset :
    (idcode_value port : ℕ) (xs : List Exchange) (rest : List ReadAnswer) (ws : List WriteAnswer)
    (s : Server) (tap : Tap)
    → IsServing s
    → s.trstn ≡ 1
    → exchange_bytes xs ≡ clock_bytes reset_edges
    → NoQuit xs
    → s.reads ≡ reads_of xs rest
    → s.writes ≡ writes_of xs ws
    → (t : Server) × (ks : List Tick) × (ticks port (map (λ x. x.tdo) xs) s ≡ done ks t)
      × (follow idcode_value (pins s) ks tap ≡ reset idcode_value)
unfolding pins
ticks-reset idcode_value port xs rest ws s tap h r bytes q hr hw =
    let (t, run, sent, reads, writes, on, err) = ticks-driven port xs rest ws s h q hr hw in
    (
      t,
      driven (pins s) xs,
      run,
      follow-driven idcode_value reset_edges xs (pins s) tap bytes r
          ∙ edges-reset idcode_value false false false false false false tap,
    )
