-- ===== src/Sim/Main/Tests.antt =====
-- sc_main on concrete arguments.
use smart_eth.Base.{codes, ◌≡◌, refl, arith, false, leb, some, [], ◌∷◌}
use smart_eth.Sim.Main.{
  Options, Surroundings, netif_start, netif_delete, bridge_start, simulate_ms, run, sc_main,
  try_help, default_options,
}
use smart_eth.Sim.Main.Startup.{run_lem, simulated, left_over}

-- The bridge is connected from its fourth look on.
abbrev slow : Surroundings
slow = record { throws = false; running = leb 3; stops_after = 2 }

abbrev both_paths : Options
both_paths = record default_options {
  net_rx_path = some (codes "/tmp/rx");
  net_tx_path = some (codes "/tmp/tx");
}

run_lem_example :
    ((run slow both_paths).0 ≡ 0)
    × (simulated (run slow both_paths).1 ≡ 2)
    × (left_over (run slow both_paths).1 0 ≡ 0)
run_lem_example = run_lem slow both_paths (λ i h. ground (arith, h))

main_in_order :
    sc_main slow (codes "--net-rx-path=/r" ∷ codes "-x" ∷ codes "--net-tx-path=/t" ∷ []) ≡ (
      0,
      netif_start (codes "/r") (codes "/t")
          ∷ bridge_start
          ∷ simulate_ms
          ∷ simulate_ms
          ∷ netif_delete
          ∷ [],
    )
unfolding sc_main try_help
main_in_order = refl

main_help : sc_main slow (codes "--socket-path=/s" ∷ codes "-h" ∷ []) ≡ (0, [])
unfolding sc_main try_help
main_help = refl
