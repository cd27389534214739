-- ===== src/Device/Invariant.antt =====
-- What holds of the device of smarteth_pci.c in every state that the guest can drive it to.
use smart_eth.Base.{
  ℕ, ◌%◌, ◌≤◌, ◌<◌, ◌≡◌, ◌^◌, refl, Bool, true, false, arith, min, Option, none, some, List, ◌++◌,
  has, drop, length, length-append, length-drop, length-replicate, not32,
}
use smart_eth.Base.Masks.{bit_and-lt, bit_or_lt, has-u32}
use smart_eth.Device.{
  SmartEth, Bus, realize, mmio_write, write_ctrl, write_irq_sts, write_dma_ctrl, start_dma,
  write_irq_test, raise_irq, dma_timer_cb, transfer, finish_dma, dma_start, dma_buf_size,
}
use smart_eth.Device.Engine.{expire, has-clear_start, expire_idle, expire_reads, expire_writes}
use smart_eth.Device.Transfer.{FillsLength}

abbrev pub is_some : Option ℕ → Bool
is_some none = false
is_some (some _) = true

-- Every register and DMA parameter is a 32-bit word, the internal buffer keeps its size, and the
-- timer is armed exactly while a transfer is under way.
pub record Inv {M : Type 0} (s : SmartEth M) : Type 0 where
  pub reg_word : (i : ℕ) → s.regs i < 2 ^ 32
  pub len_word : s.dma.len < 2 ^ 32
  pub src_word : s.dma.src < 2 ^ 32
  pub dst_word : s.dma.dst < 2 ^ 32
  pub ctrl_word : s.dma.ctrl < 2 ^ 32
  pub buf_size : length s.dma_buf ≡ dma_buf_size
  pub armed : has s.dma.ctrl dma_start ≡ is_some s.dma_timer

module _ {M : Type 0} (bus : Bus M) where
  -- The guest writes a register (QEMU refuses an unaligned access), the armed timer runs out, the
  -- guest's CPU changes memory, or QEMU changes the interrupt mode.
  pub data Step (s : SmartEth M) : SmartEth M → Type 0 where
    write : (now addr val : ℕ) → addr % 4 ≡ 0 → Step s (mmio_write now s addr val)
    timeout : (t : ℕ) → s.dma_timer ≡ some t → Step s (expire bus s)
    cpu : (m : M) → Step s (record s { memory = m })
    mode : (x y : Bool) → Step s (record s { msix = x; msi = y })

  pub data Reach (s : SmartEth M) : SmartEth M → Type 0 where
    here : Reach s s
    next : {t u : SmartEth M} → Reach s t → Step t u → Reach s u

module _ {M : Type 0} where
  realize-Inv : (m : M) → Inv (realize m)
  unfolding realize
  realize-Inv m = record {
    reg_word = λ i. ground arith;
    len_word = omega arith;
    src_word = omega arith;
    dst_word = omega arith;
    ctrl_word = omega arith;
    buf_size = length-replicate {A = ℕ} dma_buf_size 0;
    armed = refl;
  }

  mmio_write-Inv :
      (now : ℕ) (s : SmartEth M) (addr val : ℕ) → Inv s → Inv (mmio_write now s addr val)
  unfolding mmio_write write_ctrl write_irq_sts write_dma_ctrl start_dma write_irq_test raise_irq
  mmio_write-Inv now s addr val v = record {
    reg_word = λ i. ground (
      arith,
      v.reg_word i,
      v.reg_word 3,
      bit_or_lt (s.regs 3) 2,
      bit_and-lt (s.regs 3) (not32 val),
    );
    len_word = ground (arith, v.reg_word 20);
    src_word = ground (arith, v.reg_word 16);
    dst_word = ground (arith, v.reg_word 18);
    ctrl_word = ground (arith, v.reg_word 22);
    buf_size = ground (arith, v.buf_size);
    armed = ground (arith, v.armed, has-u32 val);
  }

module _ {M : Type 0} (bus : Bus M) (fills : FillsLength bus) where
  length-refill :
      (m : M) (a n : ℕ) (buf : List ℕ)
      → n ≤ dma_buf_size
      → length buf ≡ dma_buf_size
      → length (bus.dma_read m a n ++ drop n buf) ≡ dma_buf_size
  length-refill m a n buf h e =
      omega (arith, length-append (bus.dma_read m a n) (drop n buf), fills m a n, length-drop n buf)

  length-expire : (s : SmartEth M) → Inv s → length (expire bus s).dma_buf ≡ dma_buf_size
  length-expire s v = ground (
    arith,
    v.buf_size,
    expire_idle bus s,
    expire_reads bus s,
    expire_writes bus s,
    length-refill s.memory s.dma.src (min s.dma.len dma_buf_size) s.dma_buf,
  )

  expire-Inv : (s : SmartEth M) → Inv s → Inv (expire bus s)
  unfolding expire dma_timer_cb transfer finish_dma raise_irq
  expire-Inv s v = record {
    reg_word = λ i. ground (arith, v.reg_word i, v.reg_word 3, bit_or_lt (s.regs 3) 1);
    len_word = ground (arith, v.len_word);
    src_word = ground (arith, v.src_word);
    dst_word = ground (arith, v.dst_word);
    ctrl_word = ground (arith, v.ctrl_word, bit_and-lt s.dma.ctrl (not32 1));
    buf_size = length-expire s v;
    armed = ground (arith, v.armed, has-clear_start s.dma.ctrl);
  }

  Step-Inv : {s t : SmartEth M} → Step bus s t → Inv s → Inv t
  Step-Inv {s} (write now addr val aligned) v = mmio_write-Inv now s addr val v
  Step-Inv {s} (timeout t armed) v = expire-Inv s v
  Step-Inv (cpu m) v = record {
    reg_word = v.reg_word;
    len_word = v.len_word;
    src_word = v.src_word;
    dst_word = v.dst_word;
    ctrl_word = v.ctrl_word;
    buf_size = v.buf_size;
    armed = v.armed;
  }
  Step-Inv (mode x y) v = record {
    reg_word = v.reg_word;
    len_word = v.len_word;
    src_word = v.src_word;
    dst_word = v.dst_word;
    ctrl_word = v.ctrl_word;
    buf_size = v.buf_size;
    armed = v.armed;
  }

  Reach-from : {s t : SmartEth M} → Inv s → Reach bus s t → Inv t
  Reach-from v here = v
  Reach-from v (next r st) = Step-Inv st (Reach-from v r)

  -- From a device that was just realized, whatever the guest writes and whenever the timer runs,
  -- the registers and the DMA parameters stay 32-bit words, the buffer keeps its 4096 bytes, and
  -- the timer is armed exactly while a transfer is under way.
  pub Reach-Inv : (m : M) (t : SmartEth M) → Reach bus (realize m) t → Inv t
  Reach-Inv m t r = Reach-from (realize-Inv m) r
