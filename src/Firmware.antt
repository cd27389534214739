-- ===== src/Firmware.antt =====
-- The programs of the firmware: firmware/rtos/main.c, and firmware/baremetal/hello/hello.c in a
-- module of its own. FreeRTOS is the record `Kernel`; a task is the code in front of its loop and
-- a round of the loop. A task's text goes to the console of the `Machine`.
pub mod PciTask
pub mod Hello
mod Tests
use Prim.Native.String.{String}
use smart_eth.Base.{
  ℕ, zero, suc, ◌+◌, ◌*◌, ◌||◌, Option, none, some, List, [], ◌∷◌, ◌==◌, if◌then◌else◌, u32,
}
use smart_eth.Bsp
use smart_eth.Bsp.{plic_init, clint_init}
use smart_eth.PciTest.{Machine, Io, ◌>>=◌, ◌>>◌, pure}
use smart_eth.PciTest.Scan.{pci_scan}
use smart_eth.PciTest.Suite.{ticks_of_ms, run_tests, Verdict}
use smart_eth.Uart.Port.{Port, uart_init, uart_putc, uart_getc_nonblock}

-- What the firmware asks of FreeRTOS. `create` is xTaskCreate with a name, a stack in words and a
-- priority.
pub record Kernel (S : Type 0) : Type 0 where
  pub create : String → ℕ → ℕ → S → S
  pub start_scheduler : S → S
  pub delete_self : S → S
  pub disable_interrupts : S → S
  pub free_heap : S → ℕ × S

abbrev pub config_minimal_stack_size : ℕ
config_minimal_stack_size = 128

abbrev pub config_tick_rate_hz : ℕ
config_tick_rate_hz = 100

module _ {S : Type 0} (m : Machine S) where
  abbrev pub say : String → S → S
  say text s = m.print text [] s

  abbrev pub delay_ms : ℕ → S → S
  delay_ms ms s = m.delay (ticks_of_ms ms) s

  -- A round of vTaskHeartbeat, and the first rounds from `count` on.
  pub heartbeat : ℕ → S → ℕ × S
  heartbeat count s = (u32 (count + 1), delay_ms 2000 (m.print "[HB] count=0x%x\n" (count ∷ []) s))

  pub heartbeats : ℕ → ℕ → S → ℕ × S
  unfolding heartbeat
  heartbeats zero count s = (count, s)
  heartbeats (suc rounds) count s = let r = heartbeat count s in heartbeats rounds r.0 r.1

  -- A round of vTaskInfo, by the registers that it read in front of its loop.
  pub info_round : Kernel S → ℕ → ℕ → ℕ → S → S
  info_round kernel mhartid marchid mimpid s =
      let s1 = m.print "  mhartid: 0x%lx\n" (mhartid ∷ []) (say "---[INFO]---\n" s) in
      let s2 = m.print "  marchid: 0x%lx\n" (marchid ∷ []) s1 in
      let s3 = m.print "  mimpid:  0x%lx\n" (mimpid ∷ []) s2 in
      let s4 = m.print "  Tick Hz: %d\n" (config_tick_rate_hz ∷ []) s3 in
      let heap = kernel.free_heap s4 in
      let s5 = m.print "  Heap:    %d bytes free\n" (u32 heap.0 ∷ []) heap.1 in
      delay_ms 10000 (say "------------\n" s5)

  -- What vTaskPciTest does with the result of the scan.
  pub with_device : ℕ → S → S
  with_device bar0 s =
      if bar0 == 0
      then say "[PCI] SmartEth device not present (expected without -device)\n" s
      else (run_tests m bar0 s).1

  pub pci_banner : S → S
  pci_banner s = say "========================================\n" (
      say "  PCIe Device Test Phase 2\n"
        (say "========================================\n" (say "\n" s)))

  -- vTaskPciTest, which runs once.
  pub pci_test_task : Kernel S → S → S
  unfolding with_device pci_banner
  pci_test_task kernel s =
      let scanned = pci_scan m (pci_banner (delay_ms 1000 s)) in
      kernel.delete_self
        (say "[PCI] Test task complete, deleting self.\n" (with_device scanned.0 scanned.1))

  -- vTaskEcho behind its look at the line, and behind its answer; `fuel` bounds the polling.
  abbrev pub prompted : ℕ → Option S → Option S
  prompted c none = none
  prompted c (some s) = some (delay_ms 10 (if c == 13 || c == 10 then say "> " s else s))

  abbrev pub echoed : Port S → ℕ → Option ℕ × S → Option S
  unfolding uart_putc
  echoed port fuel (none, s) = some (delay_ms 10 s)
  echoed port fuel (some c, s) = prompted c (uart_putc port fuel c s)

  -- A round of vTaskEcho.
  pub echo_round : Port S → ℕ → S → Option S
  unfolding uart_putc uart_getc_nonblock
  echo_round port fuel s = echoed port fuel (uart_getc_nonblock port s)

  -- vApplicationMallocFailedHook up to the loop that it ends in.
  pub malloc_failed : Kernel S → S → S
  malloc_failed kernel s = say "[FATAL] Malloc failed!\n" (kernel.disable_interrupts s)

  -- The board behind both drivers, the UART and the console; main up to its last loop.
  pub main : Bsp.Board S → Port S → Kernel S → S → S
  unfolding plic_init clint_init uart_init
  main board port kernel s =
      let ready = plic_init board (clint_init board (uart_init port s)) in
      let s1 = say "========================================\n" (say "\n" ready) in
      let s2 = say "  SmartEth RISC-V NIC Firmware\n" s1 in
      let s3 = say "  Phase 1: FreeRTOS on QEMU RISC-V\n" s2 in
      let s4 = say "BSP Init OK\n\n" (say "========================================\n" s3) in
      let stack = config_minimal_stack_size in
      let t1 = kernel.create "heartbeat" (stack * 2) 1 s4 in
      let t2 = kernel.create "info" (stack * 3) 1 t1 in
      let t3 = kernel.create "echo" (stack * 3) 2 t2 in
      let t4 = kernel.create "pci_test" (stack * 4) 1 t3 in
      say "[FATAL] Scheduler returned!\n"
        (kernel.start_scheduler (say "[SYS] Starting FreeRTOS scheduler...\n\n" t4))
