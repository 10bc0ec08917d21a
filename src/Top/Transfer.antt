-- ===== src/Top/Transfer.antt =====
-- A transfer on the system bus, src/dm_sba.sv, while the debugger and the harts do what they like.
use riscv_dbg.Common.{
  ℕ, suc, ◌≡◌, ◌∙◌, refl, ap, subst, sym, arith, Bool, true, false, List, [], ◌∷◌, ◌++◌, length,
  map, replicate, if◌then◌else◌,
}
use riscv_dbg.Mem.{Config, Access}
use riscv_dbg.Csrs.{Inputs}
use riscv_dbg.Sba.{SbaState, Request, Bus}
use riscv_dbg.Sba
use riscv_dbg.Sba.Control.{IsSupported, is_waiting}
use riscv_dbg.Sba.Transfer.{Withheld, Silent, is_asking}
use riscv_dbg.Top.Joined.{Joined, sba_config, held_request, Master, step, Cycle, steps}
use riscv_dbg.Top.Steady.{Goes}
use riscv_dbg.Top.Cycle.{IsDone, asked, unasked, granted, asking_cycle, waiting_cycle, last_cycle}

-- What the bus answers in a cycle.
abbrev pub answer : Cycle → Bus
answer (i, a, b) = b

-- The module is active in every cycle.
unfoldable pub AllActive : Config → Bool → List Cycle → Joined → Type 0
unfolding step
AllActive c e [] s = Unit
AllActive c e ((i, a, b) ∷ l) s =
    (s.top.csrs.dmcontrol_q.dmactive ≡ true) × AllActive c e l (step c e i a b s).1

-- A state in the middle of a transfer: the request, the state and the error before it.
pub record Runs (c : Config) (r : Request) (q : SbaState) (old : ℕ) (s : Joined) : Type 0 where
  pub request_is : held_request c s.top.csrs ≡ r
  pub state_is : s.sba_q ≡ q
  pub error_is : s.top.csrs.sbcs_q.sberror ≡ old

carried_on :
    (c : Config) (r : Request) (q p : SbaState) (old : ℕ) (s t : Joined)
    → Runs c r q old s
    → Goes c s p t
    → Runs c r p old t
carried_on c r q p old s t h g = record {
  request_is = g.request_same ∙ h.request_is;
  state_is = g.state_is;
  error_is = g.error_same ∙ h.error_is;
}

asking_step :
    (c : Config) (e : Bool) (r : Request) (q : SbaState) (old : ℕ) (i : Inputs) (a : Access)
    (b : Bus) (s : Joined)
    → Runs c r q old s
    → IsSupported (sba_config c e) r
    → is_asking q ≡ true
    → b.master_r_valid_i ≡ false
    → s.top.csrs.dmcontrol_q.dmactive ≡ true
    → ((step c e i a b s).0 ≡ asked (sba_config c e) q r)
      × Runs c r (if b.master_gnt_i then granted q else q) old (step c e i a b s).1
asking_step c e r q old i a b s h ok here silent active =
    let k = sba_config c e in
    let (seen, goes) =
      asking_cycle c e i a b s (subst (IsSupported k) (sym h.request_is) ok)
        (ap is_asking h.state_is ∙ here) silent active in
    let h' = carried_on c r q _ old s (step c e i a b s).1 h goes in
    (
      seen
          ∙ (ap (λ p. asked k p (held_request c s.top.csrs)) h.state_is
              ∙ ap (asked k q) h.request_is),
      record {
        request_is = h'.request_is;
        state_is = h'.state_is ∙ ap (λ p. if b.master_gnt_i then granted p else p) h.state_is;
        error_is = h'.error_is;
      },
    )

waiting_step :
    (c : Config) (e : Bool) (r : Request) (q : SbaState) (old : ℕ) (i : Inputs) (a : Access)
    (b : Bus) (s : Joined)
    → Runs c r q old s
    → IsSupported (sba_config c e) r
    → is_waiting q ≡ true
    → b.master_r_valid_i ≡ false
    → s.top.csrs.dmcontrol_q.dmactive ≡ true
    → ((step c e i a b s).0 ≡ unasked (sba_config c e) r) × Runs c r q old (step c e i a b s).1
waiting_step c e r q old i a b s h ok here silent active =
    let k = sba_config c e in
    let (seen, goes) =
      waiting_cycle c e i a b s (subst (IsSupported k) (sym h.request_is) ok)
        (ap is_waiting h.state_is ∙ here) silent active in
    let h' = carried_on c r q s.sba_q old s (step c e i a b s).1 h goes in
    (
      seen ∙ ap (unasked k) h.request_is,
      record {
        request_is = h'.request_is;
        state_is = h'.state_is ∙ h.state_is;
        error_is = h'.error_is;
      },
    )

last_step :
    (c : Config) (e : Bool) (r : Request) (q : SbaState) (old : ℕ) (i : Inputs) (a : Access)
    (b : Bus) (s : Joined)
    → Runs c r q old s
    → IsSupported (sba_config c e) r
    → is_waiting q ≡ true
    → b.master_r_valid_i ≡ true
    → s.top.csrs.dmcontrol_q.dmactive ≡ true
    → ((step c e i a b s).0 ≡ unasked (sba_config c e) r)
      × IsDone (sba_config c e) r b old (step c e i a b s).1
last_step c e r q old i a b s h ok here answers active =
    let k = sba_config c e in
    let t = (step c e i a b s).1 in
    let (seen, done) =
      last_cycle c e i a b s (subst (IsSupported k) (sym h.request_is) ok)
        (ap is_waiting h.state_is ∙ here) answers active in
    (
      seen ∙ ap (unasked k) h.request_is,
      subst (λ v. IsDone k r b v t) h.error_is
          (subst (λ x. IsDone k x b s.top.csrs.sbcs_q.sberror t) h.request_is done),
    )

-- What is seen first, and behind it.
pub seen_before : {x m : Master} {l n : List Master} → x ≡ m → l ≡ n → x ∷ l ≡ m ∷ n
seen_before {x} {m} {l} {n} now rest = ap (λ y. y ∷ l) now ∙ ap (λ y. m ∷ y) rest

waiting_run :
    (c : Config) (e : Bool) (r : Request) (q : SbaState) (old : ℕ) (waits : List Cycle) (v : Cycle)
    (s : Joined)
    → Runs c r q old s
    → IsSupported (sba_config c e) r
    → is_waiting q ≡ true
    → Silent (map answer waits)
    → (answer v).master_r_valid_i ≡ true
    → AllActive c e (waits ++ v ∷ []) s
    → ((steps c e (waits ++ v ∷ []) s).0
        ≡ replicate (suc (length waits)) (unasked (sba_config c e) r))
      × IsDone (sba_config c e) r (answer v) old (steps c e (waits ++ v ∷ []) s).1
unfolding Silent AllActive steps
waiting_run c e r q old [] (i, a, b) s h ok here silent answers active =
    let (seen, done) = last_step c e r q old i a b s h ok here answers active.0 in
    (seen_before seen refl, done)
waiting_run c e r q old ((i, a, b) ∷ waits) v s h ok here silent answers active =
    let (seen, h') = waiting_step c e r q old i a b s h ok here silent.0 active.0 in
    let (later, done) =
      waiting_run c e r q old waits v (step c e i a b s).1 h' ok here silent.1 answers active.1 in
    (seen_before seen later, done)

granted-waiting : (q : SbaState) → is_waiting (granted q) ≡ true
unfolding granted is_waiting
granted-waiting q = ground arith

-- The masters of a transfer: a request in each cycle to the grant, and none from there to the answer.
abbrev pub transfer_seen : Sba.Config → SbaState → Request → (stalls waits : ℕ) → List Master
transfer_seen k q r stalls waits =
    replicate (suc stalls) (asked k q r) ++ replicate (suc waits) (unasked k r)

pub asking_run :
    (c : Config) (e : Bool) (r : Request) (q : SbaState) (old : ℕ) (stalls : List Cycle) (g : Cycle)
    (waits : List Cycle) (v : Cycle) (s : Joined)
    → Runs c r q old s
    → IsSupported (sba_config c e) r
    → is_asking q ≡ true
    → Withheld (map answer stalls)
    → Silent (map answer stalls)
    → (answer g).master_gnt_i ≡ true
    → (answer g).master_r_valid_i ≡ false
    → Silent (map answer waits)
    → (answer v).master_r_valid_i ≡ true
    → AllActive c e (stalls ++ g ∷ waits ++ v ∷ []) s
    → ((steps c e (stalls ++ g ∷ waits ++ v ∷ []) s).0
        ≡ transfer_seen (sba_config c e) q r (length stalls) (length waits))
      × IsDone (sba_config c e) r (answer v) old (steps c e (stalls ++ g ∷ waits ++ v ∷ []) s).1
unfolding Silent Withheld AllActive steps
asking_run c e r q old [] (i, a, b) waits v s h ok here withheld early grant no_data silent answers
      active =
    let (seen, h') = asking_step c e r q old i a b s h ok here no_data active.0 in
    let h'' =
      subst (λ x. Runs c r (if x then granted q else q) old (step c e i a b s).1) grant h' in
    let (later, done) =
      waiting_run c e r (granted q) old waits v (step c e i a b s).1 h'' ok (granted-waiting q)
        silent answers active.1 in
    (seen_before seen later, done)
asking_run c e r q old ((i, a, b) ∷ stalls) g waits v s h ok here withheld early grant no_data
      silent answers active =
    let (seen, h') = asking_step c e r q old i a b s h ok here early.0 active.0 in
    let h'' =
      subst (λ x. Runs c r (if x then granted q else q) old (step c e i a b s).1) withheld.0 h' in
    let (later, done) =
      asking_run c e r q old stalls g waits v (step c e i a b s).1 h'' ok here withheld.1 early.1
        grant no_data silent answers active.1 in
    (seen_before seen later, done)
