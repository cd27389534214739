-- ===== src/Sim/Main.antt =====
-- sc_main of sim/systemc/src/main.cpp. An argument is the list of its characters. SystemC's kernel is
-- seen through the rounds of the loop at the end; the messages are left out.
pub mod Startup
mod Tests
use smart_eth.Base.{
  codes, ℕ, zero, suc, Bool, true, false, not, ◌&&◌, ◌||◌, ◌++◌, replicate, Option, none, some,
  List, [], ◌∷◌, ◌==◌, if◌then◌else◌,
}

abbrev pub Text : Type 0
Text = List ℕ

-- `strcmp(a, b) == 0`
pub same_text : Text → Text → Bool
same_text [] [] = true
same_text [] (d ∷ ds) = false
same_text (c ∷ cs) [] = false
same_text (c ∷ cs) (d ∷ ds) = c == d && same_text cs ds

-- `strncmp(arg, prefix, n) == 0` for a prefix of n characters, and then `arg + n`.
pub after_prefix : Text → Text → Option Text
after_prefix [] arg = some arg
after_prefix (c ∷ cs) [] = none
after_prefix (c ∷ cs) (d ∷ ds) = let rest = after_prefix cs ds in if c == d then rest else none

abbrev pub socket_option : Text
socket_option = codes "--socket-path="

abbrev pub net_rx_option : Text
net_rx_option = codes "--net-rx-path="

abbrev pub net_tx_option : Text
net_tx_option = codes "--net-tx-path="

-- The variables that the loop over argv sets.
pub record Options : Type 0 where
  pub socket_path : Text
  pub net_rx_path : Option Text
  pub net_tx_path : Option Text

abbrev pub default_options : Options
default_options = record {
  socket_path = codes "/tmp/sc_bridge.sock";
  net_rx_path = none;
  net_tx_path = none;
}

pub data Reading : Type 0 where
  set : Options → Reading
  help : Reading

abbrev pub try_help : Text → Options → Reading
unfolding same_text
try_help arg o =
    if same_text arg (codes "--help") || same_text arg (codes "-h") then help else set o

abbrev pub try_tx : Text → Option Text → Options → Reading
try_tx arg none o = try_help arg o
try_tx arg (some path) o = set (record o { net_tx_path = some path })

abbrev pub try_rx : Text → Option Text → Options → Reading
unfolding after_prefix
try_rx arg none o = try_tx arg (after_prefix net_tx_option arg) o
try_rx arg (some path) o = set (record o { net_rx_path = some path })

abbrev pub try_socket : Text → Option Text → Options → Reading
unfolding after_prefix
try_socket arg none o = try_rx arg (after_prefix net_rx_option arg) o
try_socket arg (some path) o = set (record o { socket_path = path })

-- One argument.
unfoldable pub read_option : Text → Options → Reading
unfolding after_prefix
read_option arg o = try_socket arg (after_prefix socket_option arg) o

abbrev pub go_on : Reading → (Options → Reading) → Reading
go_on help rest = help
go_on (set o) rest = rest o

-- The loop over argv[1], argv[2], ...
unfoldable pub read_options : List Text → Options → Reading
unfolding read_option
read_options [] o = set o
read_options (arg ∷ args) o = let rest = read_options args in go_on (read_option arg o) rest

-- What sc_main asks of the machine it runs on: whether `start_bridge` throws, what is_running gives at its
-- first, second, ... call, and after how many milliseconds of simulated time it is told to stop.
pub record Surroundings : Type 0 where
  pub throws : Bool
  pub running : ℕ → Bool
  pub stops_after : ℕ

-- What sc_main does, in order.
pub data Deed : Type 0 where
  netif_start : Text → Text → Deed
  netif_delete : Deed
  bridge_start : Deed
  simulate_ms : Deed

-- The loop `for (retry ...)` with so many tries left: the number of calls of is_running so far.
unfoldable pub wait_connected : ℕ → (ℕ → Bool) → ℕ → ℕ
wait_connected zero running calls = calls
wait_connected (suc tries) running calls =
    let later = wait_connected tries running (suc calls) in
    if running calls then suc calls else later

abbrev pub netif_of : Option Text → Option Text → Option (Text × Text)
netif_of (some rx) (some tx) = some (rx, tx)
netif_of (some rx) none = none
netif_of none tx = none

-- `delete netif`, also of a null pointer
abbrev pub deleted : Option (Text × Text) → List Deed
deleted none = []
deleted (some paths) = netif_delete ∷ []

abbrev pub started : Option (Text × Text) → List Deed
started none = []
started (some (rx, tx)) = netif_start rx tx ∷ []

-- sc_main from the start of the bridge's thread on, by whether that throws, whether is_running holds behind
-- the loop, and the time to simulate.
unfoldable pub bridged : Bool → Bool → Option (Text × Text) → ℕ → ℕ × List Deed
bridged throws up netif ms =
    let begun = started netif ++ bridge_start ∷ [] in
    if throws
    then (1, begun ++ deleted netif)
    else if not up
    then (1, begun ++ deleted netif)
    else (0, begun ++ replicate ms simulate_ms ++ deleted netif)

-- sc_main behind its options: its result and its deeds.
unfoldable pub run : Surroundings → Options → ℕ × List Deed
unfolding wait_connected bridged
run w o =
    bridged w.throws (w.running (wait_connected 100 w.running 0))
      (netif_of o.net_rx_path o.net_tx_path) w.stops_after

abbrev pub run_read : Surroundings → Reading → ℕ × List Deed
unfolding run
run_read w help = (0, [])
run_read w (set o) = run w o

unfoldable pub sc_main : Surroundings → List Text → ℕ × List Deed
unfolding read_options run
sc_main w args = run_read w (read_options args default_options)
