-- ===== src/Driver/Irq.antt =====
-- smarteth_irq_handler of smarteth_main.c, and the completion that the tests wait for.
pub mod OnDevice
use smart_eth.Base.{
  ℕ, suc, ◌+◌, ◌-◌, ◌==◌, Bool, true, false, Option, none, some, if◌then◌else◌, has,
}
use smart_eth.Driver.{
  Driver, Adapter, Mmio, read_reg, write_reg, reg_irq_sts, irq_dma_done, irq_tx_done, irq_rx,
  irq_test,
}

module _ {D : Type 0} where
  -- `complete(&adapter->test_done)`, where an interrupt is pending
  abbrev pub complete_if : Bool → Driver D → Driver D
  complete_if pending d =
      if pending
      then record d { adapter = record (d.adapter) { test_done = d.adapter.test_done + 1 } }
      else d

  abbrev pub count_irq : Driver D → Driver D
  count_irq d = record d { adapter = record (d.adapter) { irq_count = d.adapter.irq_count + 1 } }

  abbrev pub completed : ℕ → Driver D → Driver D
  completed sts d = complete_if (has sts irq_test) (
      complete_if (has sts irq_rx)
        (complete_if (has sts irq_tx_done) (complete_if (has sts irq_dma_done) d)))

  -- wait_for_completion_timeout(&adapter->test_done, ..), where `meanwhile` is what interrupts do
  -- before the time is over. The result is whether the completion came.
  abbrev pub take_completion : Driver D → Bool × Driver D
  take_completion d =
      if d.adapter.test_done == 0
      then (false, d)
      else (true, record d { adapter = record (d.adapter) { test_done = d.adapter.test_done - 1 } })

  unfoldable pub wait_done : (Driver D → Driver D) → Driver D → Bool × Driver D
  wait_done meanwhile d = take_completion (if d.adapter.test_done == 0 then meanwhile d else d)

module _ {D : Type 0} (mmio : Mmio D) where
  -- The result is whether the interrupt was the NIC's.
  unfoldable pub irq_handler : Driver D → Bool × Driver D
  irq_handler d =
      let sts = read_reg mmio d reg_irq_sts in
      if sts == 0
      then (false, d)
      else (true, completed sts (count_irq (write_reg mmio reg_irq_sts sts d)))
