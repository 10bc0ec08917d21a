-- ===== src/Sba/Transfer.antt =====
-- A transfer over the bus, cycle by cycle.
use riscv_dbg.Common.{
  suc, ℕ, ◌+◌, ◌%◌, ◌^◌, Bool-cases, inl, inr, ◌<◌, ◌≡◌, refl, arith, Bool, true, false,
  if◌then◌else◌, List, [], ◌∷◌, ◌++◌, map, replicate, length, ap, ◌∙◌, ltb,
}
use riscv_dbg.Sba.{
  SbaState, idle, read, write, Config, Request, Bus, Fsm, be_idx_width, is_misaligned, fsm,
  fsm_case, finish, handle_size, handle_alignment, sbbusy_o, cycles, quiet, next_address, bus_width,
}
use native.Mathlib.Nat.{add-mod-mod}
use riscv_dbg.Sba.Bytes.{is_misaligned_lem}
use riscv_dbg.Sba.Control.{IsSupported, is_waiting}

-- Busy with an access whose size is not supported or whose address is not a multiple of it, the
-- FSM goes to Idle at once, without a request, and reports an error; `sbaccess_i` has 3 bits.
pub refused :
    (c : Config) (q : SbaState) (r : Request) (b : Bus)
    → r.sbaccess_i < 8
    → sbbusy_o q ≡ true
    → ¬ IsSupported c r
    → ((fsm c q r b).state_d ≡ idle)
      × ((fsm c q r b).req ≡ false)
      × ((fsm c q r b).sberror_valid_o ≡ true)
unfolding IsSupported fsm handle_size handle_alignment
refused c q r b small busy bad = rw (is_misaligned_lem c r small) ground arith

clean :
    (c : Config) (r : Request)
    → IsSupported c r
    → (is_misaligned c r ≡ false) × (ltb (be_idx_width c) r.sbaccess_i ≡ false)
unfolding IsSupported be_idx_width
clean c r ok =
    let small : r.sbaccess_i < 8 = ground (arith, ok.0) in
    (is_misaligned_lem c r small ∙ ground (arith, ok.1), ground (arith, ok.0))

pub plain :
    (c : Config) (q : SbaState) (r : Request) (b : Bus)
    → IsSupported c r
    → fsm c q r b ≡ fsm_case c q r b
unfolding fsm handle_size handle_alignment
plain c q r b ok = let (aligned, sized) = clean c r ok in rw (aligned, sized) refl

-- The bus grants in none of these cycles.
unfoldable pub Withheld : List Bus → Type 0
Withheld [] = Unit
Withheld (b ∷ bs) = (b.master_gnt_i ≡ false) × Withheld bs

-- The bus answers in none of these cycles.
unfoldable pub Silent : List Bus → Type 0
Silent [] = Unit
Silent (b ∷ bs) = (b.master_r_valid_i ≡ false) × Silent bs

-- The request line, the error and the address that the debug module stores next.
abbrev Seen : Type 0
Seen = Bool × ℕ × ℕ

abbrev look : Config → Request → Fsm → Seen
look c r f = (f.req, f.sberror_o, next_address c r f)

unfoldable pub watch : Config → Request → List Fsm × SbaState → List Seen × SbaState
watch c r run = (map (look c r) run.0, run.1)

abbrev pub bus_error : Bus → ℕ
bus_error b = if b.master_r_other_err_i then 7 else if b.master_r_err_i then 2 else 0

-- The address kept, and the address behind the access if it is to advance.
abbrev pub kept : Config → Request → ℕ
kept c r = r.sbaddress_i % 2 ^ bus_width c

abbrev pub advanced : Config → Request → ℕ
advanced c r =
    if r.sbautoincrement_i then (r.sbaddress_i + 2 ^ r.sbaccess_i) % 2 ^ bus_width c else kept c r

pub next_address-kept :
    (c : Config) (r : Request) (f : Fsm) → f.addr_incr_en ≡ false → next_address c r f ≡ kept c r
unfolding next_address
next_address-kept c r f still =
    let same : r.sbaddress_i + 0 ≡ r.sbaddress_i = omega arith in rw (still, same) refl

pub next_address-advanced :
    (c : Config) (r : Request) (f : Fsm)
    → f.addr_incr_en ≡ r.sbautoincrement_i
    → next_address c r f ≡ advanced c r
unfolding next_address
next_address-advanced c r f moves = elim (Bool-cases r.sbautoincrement_i) [
  | inl e ↦ rw (moves, e) (add-mod-mod r.sbaddress_i (2 ^ r.sbaccess_i) (2 ^ bus_width c))
  | inr e ↦ next_address-kept c r f (moves ∙ e) ∙ rw e refl
]

abbrev before : Seen → List Seen × SbaState → List Seen × SbaState
before x run = (x ∷ run.0, run.1)

-- A cycle whose FSM output is known, and the cycles behind it.
watch_step :
    (c : Config) (r : Request) (q : SbaState) (b : Bus) (bs : List Bus) (f : Fsm) (x : Seen)
    (later : List Seen × SbaState)
    → fsm c q r b ≡ f
    → look c r f ≡ x
    → watch c r (cycles c r f.state_d bs) ≡ later
    → watch c r (cycles c r q (b ∷ bs)) ≡ before x later
unfolding cycles watch
watch_step c r q b bs f x later now seen rest =
    ap (λ g. before (look c r g) (watch c r (cycles c r g.state_d bs))) now
    ∙ (ap (before (look c r f)) rest ∙ ap (λ y. before y later) seen)

look_parts :
    (c : Config) (r : Request) (f : Fsm) (req : Bool) (error address : ℕ)
    → f.req ≡ req
    → f.sberror_o ≡ error
    → next_address c r f ≡ address
    → look c r f ≡ (req, error, address)
look_parts c r f req error address h i j = simp (h, i, j) refl

answered :
    (c : Config) (r : Request) (q : SbaState) (v : Bus)
    → is_waiting q ≡ true
    → v.master_r_valid_i ≡ true
    → (look c r (fsm_case c q r v) ≡ (false, bus_error v, advanced c r))
      × ((fsm_case c q r v).state_d ≡ idle)
unfolding is_waiting fsm_case finish
answered c r q v here answers = (
  look_parts c r (fsm_case c q r v) false (bus_error v) (advanced c r) (ground arith) (ground arith)
      (next_address-advanced c r (fsm_case c q r v) (ground arith)),
  ground arith,
)

waiting :
    (c : Config) (r : Request) (q : SbaState) (waits : List Bus) (v : Bus)
    → IsSupported c r
    → is_waiting q ≡ true
    → Silent waits
    → v.master_r_valid_i ≡ true
    → watch c r (cycles c r q (waits ++ v ∷ [])) ≡ (
      replicate (length waits) (false, 0, kept c r) ++ (false, bus_error v, advanced c r) ∷ [],
      idle,
    )
unfolding cycles watch Silent fsm_case finish is_waiting
waiting c r q [] v ok here silent answers =
    let (seen, last) = answered c r q v here answers in
    watch_step c r q v [] (fsm_case c q r v) _ ([], idle) (plain c q r v ok) seen
      (ap (λ p. ([], p)) last)
waiting c r q (b ∷ waits) v ok here silent answers =
    let now : fsm c q r b ≡ quiet q = plain c q r b ok ∙ ground arith in
    let seen =
      look_parts c r (quiet q) false 0 _ refl refl (next_address-kept c r (quiet q) refl) in
    watch_step c r q b (waits ++ v ∷ []) (quiet q) _ _ now seen
      (waiting c r q waits v ok here silent.1 answers)

-- The states that ask for the bus.
unfoldable pub is_asking : SbaState → Bool
is_asking read = true
is_asking write = true
is_asking _ = false

asks :
    (c : Config) (q : SbaState) (r : Request) (b : Bus)
    → is_asking q ≡ true
    → look c r (fsm_case c q r b) ≡ (true, 0, kept c r)
unfolding fsm_case is_asking
asks c q r b here =
    look_parts c r (fsm_case c q r b) true 0 _ (ground arith) (ground arith)
      (next_address-kept c r (fsm_case c q r b) (ground arith))

-- From Read or Write a supported access whose request is held asks the bus until the cycle of the
-- grant, waits without asking until the answer, then reports the error of the bus, advances the
-- address if asked to, and is idle again, however long the bus takes for either.
pub transfer :
    (c : Config) (r : Request) (q : SbaState) (stalls : List Bus) (g : Bus) (waits : List Bus)
    (v : Bus)
    → IsSupported c r
    → is_asking q ≡ true
    → Withheld stalls
    → g.master_gnt_i ≡ true
    → Silent waits
    → v.master_r_valid_i ≡ true
    → watch c r (cycles c r q (stalls ++ g ∷ waits ++ v ∷ [])) ≡ (
      replicate (suc (length stalls)) (true, 0, kept c r)
          ++ replicate (length waits) (false, 0, kept c r)
          ++ (false, bus_error v, advanced c r) ∷ [],
      idle,
    )
unfolding Withheld fsm_case is_asking is_waiting
transfer c r q [] g waits v ok here withheld granted silent answers =
    let on : is_waiting (fsm_case c q r g).state_d ≡ true = ground arith in
    let tail = waiting c r (fsm_case c q r g).state_d waits v ok on silent answers in
    watch_step c r q g (waits ++ v ∷ []) _ _ _ (plain c q r g ok) (asks c q r g here) tail
transfer c r q (b ∷ stalls) g waits v ok here withheld granted silent answers =
    let stays : (fsm_case c q r b).state_d ≡ q = ground arith in
    let tail = transfer c r q stalls g waits v ok here withheld.1 granted silent answers in
    watch_step c r q b (stalls ++ g ∷ waits ++ v ∷ []) _ _ _ (plain c q r b ok) (asks c q r b here)
      (ap (λ p. watch c r (cycles c r p (stalls ++ g ∷ waits ++ v ∷ []))) stays ∙ tail)
