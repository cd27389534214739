-- ===== src/PciTest/Suite.antt =====
-- The device tests of pci_test.c and their runner.
pub mod Board
pub mod Registers
pub mod Run
use Prim.Native.String.{String}
use smart_eth.Base.{
  ℕ, zero, suc, ◌+◌, ◌-◌, ◌*◌, ◌/◌, ◌%◌, ◌^◌, ◌≡◌, Bool, true, false, not, bit_and, bit_or, List,
  [], ◌∷◌, ◌==◌, if◌then◌else◌, u32, has, Option, none, some,
}
use smart_eth.PciTest.{Machine, Io, ◌>>=◌, ◌>>◌, pure, reg_read, reg_write}

abbrev pub reg_ctrl : ℕ
reg_ctrl = 0x000

abbrev pub reg_status : ℕ
reg_status = 0x004

abbrev pub reg_irq_sts : ℕ
reg_irq_sts = 0x00C

abbrev pub reg_mac_lo : ℕ
reg_mac_lo = 0x010

abbrev pub reg_mac_hi : ℕ
reg_mac_hi = 0x014

abbrev pub reg_scratch0 : ℕ
reg_scratch0 = 0x020

abbrev pub reg_dma_src : ℕ
reg_dma_src = 0x040

abbrev pub reg_dma_dst : ℕ
reg_dma_dst = 0x048

abbrev pub reg_dma_len : ℕ
reg_dma_len = 0x050

abbrev pub reg_dma_ctrl : ℕ
reg_dma_ctrl = 0x058

abbrev pub reg_dma_sts : ℕ
reg_dma_sts = 0x05C

abbrev pub reg_dev_id : ℕ
reg_dev_id = 0x100

abbrev pub reg_irq_test : ℕ
reg_irq_test = 0x200

-- `pci_test_result_t`
pub data Verdict : Type 0 where
  pass fail : Verdict

-- `all_pass |= r`, with pass 0 and fail -1
abbrev pub both : Verdict → Verdict → Verdict
both pass r = r
both fail r = fail

-- `pdMS_TO_TICKS(ms)` of FreeRTOS at configTICK_RATE_HZ = 100
abbrev pub ticks_of_ms : ℕ → ℕ
ticks_of_ms ms = ms * 100 / 1000

abbrev pub patterns : List ℕ
patterns = 0x00000000 ∷ 0xFFFFFFFF ∷ 0xAAAAAAAA ∷ 0x12345678 ∷ 0xDEADBEEF ∷ []

-- Where `test_dma` has its buffer in guest memory.
abbrev pub dma_buf_address : ℕ
dma_buf_address = 0x8F000000

module _ {S : Type 0} (m : Machine S) (bar0 : ℕ) where
  abbrev say : String → List ℕ → S → S
  say text args = m.print text args

  abbrev report : Bool → String → String → Io S Verdict
  report ok good bad = if ok then (do say good []; pure pass) else (do say bad []; pure fail)

  pub test_device_id : Io S Verdict
  test_device_id = do
    dev_id ← reg_read m bar0 reg_dev_id
    say "[TEST] DEV_ID = 0x%x" (dev_id ∷ [])
    report (dev_id == 0x52414D53) "  PASS\n" "  FAIL (unexpected value)\n"

  pub test_status : Io S Verdict
  test_status = do
    status ← reg_read m bar0 reg_status
    say "[TEST] STATUS = 0x%x" (status ∷ [])
    report (has status 1) "  PASS (device ready)\n" "  FAIL (not ready)\n"

  -- The rounds of the loop from index `i` on.
  pub scratch_loop : List ℕ → ℕ → Verdict → Io S Verdict
  scratch_loop [] i verdict = pure verdict
  scratch_loop (p ∷ ps) i verdict = do
    reg_write m bar0 (reg_scratch0 + i % 4 * 4) p
    val ← reg_read m bar0 (reg_scratch0 + i % 4 * 4)
    if val == p
        then say "[TEST] SCRATCH[%d] = 0x%x  PASS\n" (i ∷ val ∷ [])
        else say "[TEST] SCRATCH[%d] = 0x%x (expected 0x%x)  FAIL\n" (i ∷ val ∷ p ∷ [])
    scratch_loop ps (i + 1) (if val == p then verdict else fail)

  pub test_scratch_regs : Io S Verdict
  unfolding scratch_loop
  test_scratch_regs = scratch_loop patterns 0 pass

  pub test_ctrl_reset : Io S Verdict
  test_ctrl_reset = do
    reg_write m bar0 reg_scratch0 0xDEAD
    reg_write m bar0 reg_ctrl 1
    val ← reg_read m bar0 reg_scratch0
    say "[TEST] CTRL_RESET: SCRATCH0 after reset = 0x%x" (val ∷ [])
    report (val == 0) "  PASS\n" "  FAIL (not cleared)\n"

  pub test_mac_addr : Io S Verdict
  test_mac_addr = do
    mac_lo ← reg_read m bar0 reg_mac_lo
    mac_hi ← reg_read m bar0 reg_mac_hi
    say "[TEST] MAC = %x:%x:%x:%x:%x:%x\n" (
        bit_and mac_lo 0xFF
        ∷ bit_and (mac_lo / 2 ^ 8) 0xFF
        ∷ bit_and (mac_lo / 2 ^ 16) 0xFF
        ∷ bit_and (mac_lo / 2 ^ 24) 0xFF
        ∷ bit_and mac_hi 0xFF
        ∷ bit_and (mac_hi / 2 ^ 8) 0xFF
        ∷ [])
    say "[TEST] MAC readback  PASS\n" []
    pure pass

  -- `for (i ...) dma_buf[i] = 0xAABB0000 + i`, from index `i` on
  pub fill_buffer : ℕ → ℕ → S → S
  fill_buffer zero i s = s
  fill_buffer (suc left) i s =
      fill_buffer left (i + 1) (m.store32 (dma_buf_address + i * 4) (u32 (0xAABB0000 + i)) s)

  -- `while (timeout--)` with `timeout` rounds left. The result is the C variable after the loop:
  -- `none` for -1, when the rounds ran out, `some t` after a `break`.
  pub poll_dma : ℕ → Io S (Option ℕ)
  poll_dma zero = pure none
  poll_dma (suc timeout) = do
    dma_sts ← reg_read m bar0 reg_dma_sts
    if not (has dma_sts 2)
        then pure (some timeout)
        else (do m.delay (ticks_of_ms 1); poll_dma timeout)

  abbrev pub dma_verdict : Option ℕ → Bool
  dma_verdict none = false
  dma_verdict (some timeout) = not (timeout == 0)

  -- Up to the loop. The value written to DMA_CTRL is DMA_START | IRQ_DMA_DONE.
  pub start_test_dma : S → S
  unfolding fill_buffer
  start_test_dma s = say "[TEST] DMA started (reading 256 bytes from guest memory)...\n" [] (
      reg_write m bar0 reg_dma_ctrl (bit_or 1 1) (
        reg_write m bar0 reg_dma_len 256 (
          reg_write m bar0 reg_dma_dst 0
            (reg_write m bar0 reg_dma_src dma_buf_address (fill_buffer 64 0 s)))))

  pub test_dma : Io S Verdict
  test_dma = do
    start_test_dma
    timeout ← poll_dma 500
    report (dma_verdict timeout) "[TEST] DMA completed  PASS\n" "[TEST] DMA  TIMEOUT  FAIL\n"

  pub test_interrupt : Io S Verdict
  test_interrupt = do
    say "[TEST] Triggering device interrupt (REG_IRQ_TEST)...\n" []
    reg_write m bar0 reg_irq_sts 2
    reg_write m bar0 reg_irq_test 1
    irq_sts ← reg_read m bar0 reg_irq_sts
    say "[TEST] IRQ_STS after trigger = 0x%x\n" (irq_sts ∷ [])
    if has irq_sts 2
        then (do
          say "[TEST] Interrupt status bit set  PASS (device side)\n" []
          reg_write m bar0 reg_irq_sts 2
          pure pass)
        else (do say "[TEST] Interrupt status bit NOT set  FAIL\n" []; pure fail)

  abbrev verdict_text : Verdict → String
  verdict_text pass = "PASSED"
  verdict_text fail = "FAILED"

  pub run_tests : Io S Verdict
  run_tests = do
    say "\n====== PCIe Device Tests ======\n" []
    id ← test_device_id
    status ← test_status
    scratch ← test_scratch_regs
    reset ← test_ctrl_reset
    mac ← test_mac_addr
    dma ← test_dma
    interrupt ← test_interrupt
    let all_pass = both id (both status (both scratch (both reset (both mac (both dma interrupt)))))
    say "====== Tests " []
    say (verdict_text all_pass) []
    say " ======\n\n" []
    pure all_pass
