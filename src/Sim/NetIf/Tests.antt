-- ===== src/Sim/NetIf/Tests.antt =====
-- Frames from one interface to another.
use smart_eth.Base.{◌≡◌, refl, arith, true, false, some, [], ◌∷◌, replicate}
use smart_eth.Sim.NetIf.{NetIf, new_net_if}
use smart_eth.Sim.NetIf.Listener.{Round, listen_loop}
use smart_eth.Sim.NetIf.Streams.{Writes, Good, transmit_all, listen_loop-transmit_all}

abbrev sender : NetIf
sender = record { rx_listen = false; rx = false; tx = true; running = true; thread = true }

-- The length in one piece, then one byte at a time.
abbrev bytewise : Round
bytewise = record {
  stopped = false;
  head = some 3;
  junk = replicate 4 0xCC;
  body = some 0 ∷ some 0 ∷ [];
}

bytewise-Good : Good bytewise 2
bytewise-Good = record {
  goes_on = refl;
  whole = omega arith;
  room = refl;
  positive = tt;
  enough = omega arith;
}

bytewise-Good_empty : Good bytewise 0
bytewise-Good_empty = record {
  goes_on = refl;
  whole = omega arith;
  room = refl;
  positive = tt;
  enough = omega arith;
}

abbrev whole_writes : Writes
whole_writes = (some 7, some 99)

listen_loop-transmit_all_example :
    listen_loop
      (bytewise ∷ bytewise ∷ [])
      (transmit_all (whole_writes ∷ whole_writes ∷ []) ([] ∷ (5 ∷ 6 ∷ []) ∷ []) sender)
      new_net_if
    ≡ ((5 ∷ 6 ∷ []) ∷ [], new_net_if)
listen_loop-transmit_all_example =
    listen_loop-transmit_all (whole_writes ∷ whole_writes ∷ []) (bytewise ∷ bytewise ∷ [])
      ([] ∷ (5 ∷ 6 ∷ []) ∷ []) new_net_if sender refl
      (
        omega arith,
        omega arith,
        bytewise-Good_empty,
        omega arith,
        (omega arith, omega arith, bytewise-Good, omega arith, tt),
      )
