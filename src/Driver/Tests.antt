-- ===== src/Driver/Tests.antt =====
-- The theorems on the Linux driver at concrete inputs.
use smart_eth.Base.{
  ℕ, ◌+◌, ◌≡◌, ◌<◌, refl, arith, true, ltb, none, some, ◌++◌, drop, if◌then◌else◌, ◌==◌,
}
use smart_eth.Device.{SmartEth, realize}
use smart_eth.Device.Interrupts.{irq_sts}
use smart_eth.Device.Samples.{Memory, byte_bus, counting_memory, fresh_device}
use smart_eth.Driver.{Driver, Mmio, enomem}
use smart_eth.Driver.Buffers.{BufferAnswer, prepare_rx_buffers, prepare_from}
use smart_eth.Driver.Buffers.Accounting.{more, Good}
use smart_eth.Driver.Probe.{Kernel, new_adapter, probe, remove}
use smart_eth.Driver.Probe.Unwinding.{
  idle, Settled, willing, probe-Settled, remove-probe, probe_keeps_buffers,
}
use smart_eth.Driver.Irq.{irq_handler}
use smart_eth.Driver.Irq.OnDevice.{device_mmio, completions, irq_handler_acknowledges}
use smart_eth.Driver.SelfTest.{test_dma}
use smart_eth.Driver.SelfTest.DmaRun.{dma_interrupt, test_dma_passes}

-- A card that answers its identification to every read.
abbrev id_mmio : Mmio ℕ
id_mmio = record { read = λ s addr. 0x52414D53; write = λ s addr val. s + 1 }

-- Buffers at 4 KB each, all of them or the first three.
abbrev all_buffers : ℕ → BufferAnswer
all_buffers i = (some (i + 1), some (i + 1))

abbrev three_buffers : ℕ → BufferAnswer
three_buffers i = if ltb i 3 then (some (i + 1), some (i + 1)) else (none, none)

three_buffers-Good : (n : ℕ) → n < 3 → Good (three_buffers n)
three_buffers-Good n h = let e : ltb n 3 ≡ true = ground arith in rw e tt

abbrev all_kernel : Kernel
all_kernel = willing 0x10000 0x20000 all_buffers

-- The interrupt is refused.
abbrev no_irq : Kernel
no_irq = record all_kernel { irq = some 16 }

probe-Settled_example :
    Settled 0 0 (probe id_mmio no_irq (record { adapter = new_adapter; held = idle 0 0; dev = 0 }))
probe-Settled_example = probe-Settled id_mmio no_irq 0 0 (λ i. tt) new_adapter 0

probed :
    (probe id_mmio all_kernel (record { adapter = new_adapter; held = idle 0 0; dev = 0 })).0 ≡ none
unfolding probe prepare_rx_buffers prepare_from
probed = refl

remove-probe_example :
    (remove id_mmio
      (probe id_mmio all_kernel
        (record { adapter = new_adapter; held = idle 0 0; dev = 0 })).1).held
    ≡ idle 0 0
remove-probe_example = remove-probe id_mmio all_kernel 0 0 (λ i. tt) new_adapter 0 probed

probe_keeps_buffers_example :
    (let r =
        probe id_mmio
          (willing 0x10000 0x20000 three_buffers)
          (record { adapter = new_adapter; held = idle 0 0; dev = 0 }) in
      (r.0 ≡ some enomem) × (r.1.held ≡ more 3 (idle 0 0)))
probe_keeps_buffers_example =
    probe_keeps_buffers id_mmio 0 0 0x10000 0x20000 three_buffers 3 new_adapter 0 refl (omega arith)
      three_buffers-Good (λ bad. bad)

abbrev waiting_driver : SmartEth Memory → Driver (SmartEth Memory)
waiting_driver s = record { adapter = new_adapter; held = idle 0 0; dev = s }

-- The device with the interrupts of a transfer and of a test pending.
abbrev ringing_device : SmartEth Memory
ringing_device = record fresh_device { regs = λ i. if i == 3 then 3 else 0 }

irq_handler_acknowledges_example :
    (let r = irq_handler (device_mmio 0) (waiting_driver ringing_device) in
      (r.0 ≡ true)
      × (irq_sts r.1.dev ≡ 0)
      × (r.1.dev.regs 4 ≡ 0)
      × (r.1.adapter.irq_count ≡ 1)
      × (r.1.adapter.test_done ≡ 0 + completions 3)
      × (r.1.held ≡ idle 0 0))
irq_handler_acknowledges_example =
    irq_handler_acknowledges 0 (waiting_driver ringing_device) 4 (omega arith) (omega arith)

test_dma_passes_example :
    (let dev = record fresh_device { msix = true } in
      let r =
        test_dma
          (device_mmio 0)
          (dma_interrupt byte_bus 0)
          true
          (some 0x1000)
          (waiting_driver dev) in
      (r.0 ≡ none)
      × (r.1.adapter.test_done ≡ 0)
      × (r.1.adapter.irq_count ≡ 1)
      × (irq_sts r.1.dev ≡ 0)
      × (r.1.dev.dma_buf
          ≡ byte_bus.dma_read counting_memory 0x1000 256 ++ drop 256 fresh_device.dma_buf))
unfolding realize
test_dma_passes_example =
    test_dma_passes byte_bus 0 0x1000 new_adapter (idle 0 0) (record fresh_device { msix = true })
      (omega arith) refl refl
