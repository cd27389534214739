-- ===== src/Sim/Main/Startup.antt =====
-- What sc_main makes of its arguments, and when it runs the simulation.
use smart_eth.Base.{
  ℕ, zero, suc, ◌+◌, ◌-◌, ◌≤◌, ◌≡◌, ◌∙◌, sym, refl, ap, arith, Bool, true, false, not, ◌&&◌, Option,
  none, some, List, [], ◌∷◌, ◌++◌, if◌then◌else◌, if_true, if_false, Bool-cases, inl, inr,
  replicate,
}
use smart_eth.Sim.Main.{
  Text, after_prefix, socket_option, net_rx_option, net_tx_option, Options, Reading, set, help,
  read_option, read_options, go_on, Surroundings, Deed, netif_start, netif_delete, bridge_start,
  simulate_ms, wait_connected, bridged, run, netif_of,
}

go_on-agree :
    (r : Reading) (f g : Options → Reading) (o' : Options) (x : Reading)
    → ((o : Options) → f o ≡ set o' → g o ≡ x)
    → go_on r f ≡ set o'
    → go_on r g ≡ x
go_on-agree help f g o' x h e = absurd cc
go_on-agree (set o) f g o' x h e = h o e

read_options-append :
    (args : List Text) (last : Text) (o o' : Options)
    → read_options args o ≡ set o'
    → read_options (args ++ last ∷ []) o ≡ go_on (read_option last o') set
unfolding read_options
read_options-append [] last o o' e =
    let same : o ≡ o' = cc in ap (λ (x : Options). go_on (read_option last x) set) same
read_options-append (arg ∷ args) last o o' e =
    go_on-agree (read_option arg o) (read_options args) (read_options (args ++ last ∷ [])) o'
      (go_on (read_option last o') set) (λ o1 e1. read_options-append args last o1 o' e1) e

-- An option sets its path, whatever was set before, and leaves the others.
pub read_options-last :
    (args : List Text) (path : Text) (o o' : Options)
    → read_options args o ≡ set o'
    → (read_options (args ++ (socket_option ++ path) ∷ []) o
        ≡ set (record o' { socket_path = path }))
      × (read_options (args ++ (net_rx_option ++ path) ∷ []) o
          ≡ set (record o' { net_rx_path = some path }))
      × (read_options (args ++ (net_tx_option ++ path) ∷ []) o
          ≡ set (record o' { net_tx_path = some path }))
unfolding read_option after_prefix
read_options-last args path o o' e = (
  read_options-append args (socket_option ++ path) o o' e,
  read_options-append args (net_rx_option ++ path) o o' e,
  read_options-append args (net_tx_option ++ path) o o' e,
)

module _ (running : ℕ → Bool) (stays : (i : ℕ) → running i ≡ true → running (i + 1) ≡ true) where
  -- A bridge that runs at some call still does later.
  still_running : (d i : ℕ) → running i ≡ true → running (i + d) ≡ true
  still_running zero i h = ap running (omega arith) ∙ h
  still_running (suc d) i h = ap running (omega arith) ∙ still_running d (i + 1) (stays i h)

  later_running : (i j : ℕ) → i ≤ j → running i ≡ true → running j ≡ true
  later_running i j le h = ap running (omega arith) ∙ still_running (j - i) i h

  -- The answer behind the loop is that of the last call there can be.
  wait_connected-last :
      (tries calls : ℕ) → running (wait_connected tries running calls) ≡ running (calls + tries)
  unfolding wait_connected
  wait_connected-last zero calls = ap running (omega arith)
  wait_connected-last (suc tries) calls = elim (Bool-cases (running calls)) [
    | inl up ↦
        ap running (if_true _ _ up)
        ∙ later_running calls (suc calls) (omega arith) up
        ∙ sym (later_running calls (calls + suc tries) (omega arith) up)
    | inr down ↦
        ap running (if_false _ _ down)
        ∙ wait_connected-last tries (suc calls)
        ∙ ap running (omega arith)
  ]

-- The milliseconds of simulated time.
abbrev pub simulated : List Deed → ℕ
simulated [] = 0
simulated (simulate_ms ∷ ds) = suc (simulated ds)
simulated (netif_start rx tx ∷ ds) = simulated ds
simulated (netif_delete ∷ ds) = simulated ds
simulated (bridge_start ∷ ds) = simulated ds

simulated-append :
    (k : ℕ) (ds : List Deed) → simulated (replicate k simulate_ms ++ ds) ≡ k + simulated ds
simulated-append zero ds = omega arith
simulated-append (suc k) ds = omega (arith, simulated-append k ds)

-- How many interfaces are made and not deleted.
abbrev pub left_over : List Deed → ℕ → ℕ
left_over [] n = n
left_over (netif_start rx tx ∷ ds) n = left_over ds (n + 1)
left_over (netif_delete ∷ ds) n = left_over ds (n - 1)
left_over (bridge_start ∷ ds) n = left_over ds n
left_over (simulate_ms ∷ ds) n = left_over ds n

left_over-simulated :
    (k n : ℕ) (ds : List Deed) → left_over (replicate k simulate_ms ++ ds) n ≡ left_over ds n
left_over-simulated zero n ds = refl
left_over-simulated (suc k) n ds = left_over-simulated k n ds

bridged_lem :
    (throws up : Bool) (netif : Option (Text × Text)) (ms : ℕ)
    → (let r = bridged throws up netif ms in
        (r.0 ≡ (if not throws && up then 0 else 1))
        × (simulated r.1 ≡ (if not throws && up then ms else 0))
        × (left_over r.1 0 ≡ 0))
unfolding bridged
bridged_lem true up none ms = (refl, refl, refl)
bridged_lem true up (some p) ms = (refl, refl, omega arith)
bridged_lem false false none ms = (refl, refl, refl)
bridged_lem false false (some p) ms = (refl, refl, omega arith)
bridged_lem false true none ms =
    (refl, simulated-append ms [] ∙ omega arith, left_over-simulated ms 0 [])
bridged_lem false true (some p) ms = (
  refl,
  simulated-append ms (netif_delete ∷ []) ∙ omega arith,
  left_over-simulated ms 1 (netif_delete ∷ []) ∙ omega arith,
)

-- For a bridge that stays connected once it is, sc_main behind its options returns 0 just when the bridge's
-- thread starts and is_running holds by its 101st call, and only then simulates, for as long as it is not
-- stopped; whichever way it returns, the interface that it made, if it made one, is deleted.
pub run_lem :
    (w : Surroundings) (o : Options)
    → ((i : ℕ) → w.running i ≡ true → w.running (i + 1) ≡ true)
    → (let up = not w.throws && w.running 100 in
        ((run w o).0 ≡ (if up then 0 else 1))
        × (simulated (run w o).1 ≡ (if up then w.stops_after else 0))
        × (left_over (run w o).1 0 ≡ 0))
unfolding run
run_lem w o stays =
    let netif = netif_of o.net_rx_path o.net_tx_path in
    let b = w.running (wait_connected 100 w.running 0) in
    let last : b ≡ w.running 100 = wait_connected-last w.running stays 100 0 in
    let r = bridged_lem w.throws b netif w.stops_after in
    (
      r.0 ∙ ap (λ (x : Bool). if not w.throws && x then 0 else 1) last,
      r.1 ∙ ap (λ (x : Bool). if not w.throws && x then w.stops_after else 0) last,
      r.2,
    )
