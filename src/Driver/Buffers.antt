-- ===== src/Driver/Buffers.antt =====
-- The receive buffers of smarteth_main.c.
pub mod Accounting
use smart_eth.Base.{
  ℕ, zero, suc, ◌+◌, ◌-◌, ◌*◌, ◌≤◌, ◌<◌, ◌≡◌, ◌≢◌, refl, sym, ap, ◌∙◌, arith, Bool, true, false,
  Option, none, some, store, if◌then◌else◌, ◌==◌, ◌⊎◌, inl, inr,
}
use smart_eth.Driver.{Driver, Adapter, Held, Desc, ring_size, rx_buf_size, desc_flag_own, enomem}

-- The kernel's answers for one buffer: the address of kmalloc, and the one of dma_map_single.
abbrev pub BufferAnswer : Type 0
BufferAnswer = Option ℕ × Option ℕ

module _ {D : Type 0} where
  abbrev pub set_rx_buf : ℕ → Option ℕ → Driver D → Driver D
  set_rx_buf i p d = record d {
    adapter = record (d.adapter) { rx_buf = store d.adapter.rx_buf i p };
  }

  -- A buffer that is allocated and mapped, with its descriptor.
  abbrev pub prepared : ℕ → ℕ → ℕ → Driver D → Driver D
  prepared i buf dma d = record d {
    adapter = record (d.adapter) {
      rx_buf = store d.adapter.rx_buf i (some buf);
      rx_dma = store d.adapter.rx_dma i dma;
      rx_ring =
          store d.adapter.rx_ring i
            (record { addr = dma; len = rx_buf_size; flags = desc_flag_own });
    };
    held = record (d.held) { allocs = d.held.allocs + 1; maps = d.held.maps + 1 };
  }

  abbrev pub and_next :
      ℕ → Driver D → BufferAnswer → (Driver D → Option ℕ × Driver D) → Option ℕ × Driver D
  and_next i d (none, map) k = (some enomem, set_rx_buf i none d)
  and_next i d (some buf, none) k = (some enomem, set_rx_buf i none d)
  and_next i d (some buf, some dma) k = k (prepared i buf dma d)

  -- smarteth_prepare_rx_buffers from buffer `i` on, with `left` buffers to go. The result is the error.
  unfoldable pub prepare_from : (ℕ → BufferAnswer) → ℕ → ℕ → Driver D → Option ℕ × Driver D
  prepare_from answers zero i d = (none, d)
  prepare_from answers (suc left) i d = and_next i d (answers i) (prepare_from answers left (suc i))

  unfoldable pub prepare_rx_buffers : (ℕ → BufferAnswer) → Driver D → Option ℕ × Driver D
  prepare_rx_buffers answers d = prepare_from answers ring_size 0 d

  abbrev pub free_one : ℕ → Option ℕ → Driver D → Driver D
  free_one i none d = d
  free_one i (some buf) d = record d {
    adapter = record (d.adapter) { rx_buf = store d.adapter.rx_buf i none };
    held = record (d.held) { allocs = d.held.allocs - 1; maps = d.held.maps - 1 };
  }

  unfoldable pub free_from : ℕ → ℕ → Driver D → Driver D
  free_from zero i d = d
  free_from (suc left) i d = free_from left (suc i) (free_one i (d.adapter.rx_buf i) d)

  unfoldable pub free_rx_buffers : Driver D → Driver D
  free_rx_buffers d = free_from ring_size 0 d
