-- ===== src/Driver/SelfTest.antt =====
-- The tests of smarteth_main.c behind the file `test` of sysfs.
pub mod Verdicts
pub mod DmaRun
use smart_eth.Base.{
  ℕ, ◌+◌, ◌-◌, ◌%◌, ◌==◌, ◌&&◌, Bool, true, false, Option, none, some, List, [], ◌∷◌, store,
  if◌then◌else◌, has,
}
use smart_eth.Driver.{
  Driver, Adapter, Held, Mmio, Desc, read_reg, write_reg, lower_32_bits, upper_32_bits, ring_size,
  desc_flag_own, enomem, etimedout, status_ready, dev_id, reg_dev_id, reg_status, reg_scratch0,
  reg_dma_src, reg_dma_dst, reg_dma_len, reg_dma_ctrl, reg_tx_doorbell, reg_irq_test,
}
use smart_eth.Driver.Irq.{wait_done}

module _ {D : Type 0} where
  -- kzalloc, kfree, dma_map_single and dma_unmap_single in the ledger.
  abbrev pub alloc : Driver D → Driver D
  alloc d = record d { held = record (d.held) { allocs = d.held.allocs + 1 } }

  abbrev pub free : Driver D → Driver D
  free d = record d { held = record (d.held) { allocs = d.held.allocs - 1 } }

  abbrev pub map : Driver D → Driver D
  map d = record d { held = record (d.held) { maps = d.held.maps + 1 } }

  abbrev pub unmap : Driver D → Driver D
  unmap d = record d { held = record (d.held) { maps = d.held.maps - 1 } }

  -- The end of a test: `timeout > 0 ? 0 : -ETIMEDOUT`.
  abbrev pub verdict : Bool × Driver D → Option ℕ × Driver D
  verdict (ok, d) = (if ok then none else some etimedout, d)

  abbrev pub released : Bool × Driver D → Option ℕ × Driver D
  released (ok, d) = verdict (ok, free (unmap d))

  -- With a buffer of 256 bytes, by the kernel's answers to kzalloc and dma_map_single.
  abbrev pub with_buffer :
      Bool → Option ℕ → (ℕ → Driver D → Option ℕ × Driver D) → Driver D → Option ℕ × Driver D
  with_buffer false map_answer run d = (some enomem, d)
  with_buffer true none run d = (some enomem, free (alloc d))
  with_buffer true (some dma) run d = run dma (map (alloc d))

  -- The descriptor at the head, and the head behind it.
  abbrev pub queue_tx : ℕ → Driver D → Driver D
  queue_tx dma d =
      let head = d.adapter.tx_head in
      record d {
        adapter = record (d.adapter) {
          tx_ring =
              store d.adapter.tx_ring head
                (record { addr = dma; len = 256; flags = desc_flag_own });
          tx_head = (head + 1) % ring_size;
        };
      }

-- The three verdicts of the register test are log lines.
pub record RegsReport : Type 0 where
  pub id_ok : Bool
  pub ready : Bool
  pub scratch_ok : Bool

module _ {D : Type 0} (mmio : Mmio D) where
  unfoldable pub test_regs : Driver D → RegsReport × Driver D
  test_regs d =
      let d' = write_reg mmio reg_scratch0 0x12345678 d in
      (
        record {
          id_ok = read_reg mmio d reg_dev_id == dev_id;
          ready = has (read_reg mmio d reg_status) status_ready;
          scratch_ok = read_reg mmio d' reg_scratch0 == 0x12345678;
        },
        d',
      )

  -- Source, destination, length and control of the transfer.
  abbrev pub program_dma : ℕ → Driver D → Driver D
  program_dma dma d = write_reg mmio reg_dma_ctrl 0x5 (
      write_reg mmio reg_dma_len 256 (
        write_reg mmio reg_dma_dst (upper_32_bits dma)
          (write_reg mmio reg_dma_src (lower_32_bits dma) d)))

module _ {D : Type 0} (mmio : Mmio D) (meanwhile : Driver D → Driver D) where
  unfoldable pub test_dma : Bool → Option ℕ → Driver D → Option ℕ × Driver D
  unfolding wait_done
  test_dma alloc_ok map_answer d =
      with_buffer alloc_ok map_answer
        (λ dma d'. released (wait_done meanwhile (program_dma mmio dma d'))) d

  unfoldable pub test_tx : Bool → Option ℕ → Driver D → Option ℕ × Driver D
  unfolding wait_done
  test_tx alloc_ok map_answer d =
      with_buffer alloc_ok map_answer
        (λ dma d'.
          released (wait_done meanwhile (write_reg mmio reg_tx_doorbell 1 (queue_tx dma d'))))
        d

  unfoldable pub test_irq : Driver D → Option ℕ × Driver D
  unfolding wait_done
  test_irq d = verdict (wait_done meanwhile (write_reg mmio reg_irq_test 1 d))

  -- `strncmp(buf, word, n) == 0` for a word of `n` characters, on characters that end with 0
  abbrev pub starts : List ℕ → List ℕ → Bool
  starts [] buf = true
  starts (c ∷ word) [] = false
  starts (c ∷ word) (b ∷ buf) = c == b && starts word buf

  -- test_store, which returns `count` in any case. The kernel's answers are those for the test that
  -- is chosen.
  unfoldable pub test_store : Bool → Option ℕ → List ℕ → ℕ → Driver D → ℕ × Driver D
  unfolding test_dma test_tx test_irq
  test_store alloc_ok map_answer buf count d = (
    count,
    if starts (114 ∷ 101 ∷ 103 ∷ 115 ∷ []) buf
        then (test_regs mmio d).1
        else if starts (100 ∷ 109 ∷ 97 ∷ []) buf
        then (test_dma alloc_ok map_answer d).1
        else if starts (116 ∷ 120 ∷ []) buf
        then (test_tx alloc_ok map_answer d).1
        else if starts (105 ∷ 110 ∷ 116 ∷ 114 ∷ []) buf
        then (test_irq d).1
        else d,
  )
