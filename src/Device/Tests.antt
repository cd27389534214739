-- ===== src/Device/Tests.antt =====
-- The theorems on the device at concrete inputs.
use smart_eth.Base.{◌≡◌, refl, arith, inl}
use smart_eth.Device.{mmio_write, reg_ctrl, reg_irq_test}
use smart_eth.Device.Samples.{
  byte_bus, byte_bus-FillsLength, counting_memory, fresh_device, sample_read, sample_write,
}
use smart_eth.Device.Engine.{run_timer, program, expire, IsWords}
use smart_eth.Device.Transfer.{dma_copies}
use smart_eth.Device.Invariant.{Inv, Reach, Step, Reach-Inv}
use smart_eth.Device.Reset.{
  reset_keeps_dma, LineFollows, QuietReach, QuietStep, QuietReach-LineFollows, realize-LineFollows,
}

sample_read-IsWords : IsWords sample_read
sample_read-IsWords = record {
  src_word = omega arith;
  dst_word = omega arith;
  len_word = omega arith;
  ctrl_word = omega arith;
}

sample_write-IsWords : IsWords sample_write
sample_write-IsWords = record {
  src_word = omega arith;
  dst_word = omega arith;
  len_word = omega arith;
  ctrl_word = omega arith;
}

dma_copies_example :
    (let s = fresh_device in
      (expire byte_bus (program 7 (expire byte_bus (program 0 s sample_read)) sample_write)).memory
      ≡ byte_bus.dma_write s.memory 0x2000 (byte_bus.dma_read s.memory 0x1000 16))
dma_copies_example =
    dma_copies byte_bus 0 7 fresh_device sample_read sample_write byte_bus-FillsLength
      sample_read-IsWords sample_write-IsWords refl refl refl refl refl

Reach-Inv_example : Inv (mmio_write 0 (mmio_write 0 fresh_device 0x050 5000) 0x058 1)
Reach-Inv_example =
    Reach-Inv byte_bus byte_bus-FillsLength counting_memory
      (mmio_write 0 (mmio_write 0 fresh_device 0x050 5000) 0x058 1)
      (Reach.next (Reach.next Reach.here (Step.write 0 0x050 5000 refl))
        (Step.write 0 0x058 1 refl))

reset_keeps_dma_example :
    (let s = program 0 fresh_device sample_write in
      let r = mmio_write 0 s reg_ctrl 1 in
      let t = run_timer byte_bus r in
      let u = run_timer byte_bus s in
      (r.dma_timer ≡ s.dma_timer)
      × (t.memory ≡ u.memory)
      × (t.dma_buf ≡ u.dma_buf)
      × (t.dma ≡ u.dma)
      × (t.events ≡ u.events))
reset_keeps_dma_example = reset_keeps_dma byte_bus 0 1 (program 0 fresh_device sample_write) refl

QuietReach-LineFollows_example : LineFollows (mmio_write 0 fresh_device reg_irq_test 1)
QuietReach-LineFollows_example =
    QuietReach-LineFollows byte_bus (realize-LineFollows counting_memory)
      (QuietReach.next QuietReach.here (QuietStep.write 0 reg_irq_test 1 refl (inl (omega arith))))
