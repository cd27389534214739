-- ===== src/Bridge/Lifecycle.antt =====
-- sc_bridge_instance_init, sc_bridge_realize and sc_bridge_exit of smarteth_sc_bridge.c, without the
-- mutexes, the socket's path and its file.
use smart_eth.Base.{ℕ, ◌≡◌, refl, arith, Bool, true, false, not, ◌&&◌, [], if◌then◌else◌}
use smart_eth.Bridge.{ScBridge, default_regs, mmio_read_end}
use smart_eth.Bridge.Waiting.{sys, Step, idle, waiting, finish}
use smart_eth.Device.{Bus}

-- Which calls of `realize` succeed.
pub record HostCalls : Type 0 where
  pub msix_init : Bool
  pub socket : Bool
  pub bind : Bool
  pub listen : Bool

module _ {M : Type 0} where
  -- QEMU hands out an object of zeros.
  pub instance_init : M → ScBridge M
  instance_init m = record {
    listen_open = false;
    sock_open = false;
    connected = false;
    io_thread_running = false;
    mmio_pending = false;
    mmio_resp_data = 0;
    mmio_resp_status = 0;
    regs = λ _. 0;
    sent = [];
    msix = false;
    notified = [];
    memory = m;
  }

  -- The state and whether `errp` stays clear.
  pub realize : HostCalls → ScBridge M → Bool × ScBridge M
  realize calls s =
      if not calls.msix_init
      then (false, s)
      else if not calls.socket
      then (false, record s { regs = default_regs; listen_open = false })
      else if not calls.bind
      then (false, record s { regs = default_regs; listen_open = false })
      else if not calls.listen
      then (false, record s { regs = default_regs; listen_open = false })
      else (
        true,
        record s {
          regs = default_regs;
          listen_open = true;
          connected = false;
          sock_open = false;
          io_thread_running = true;
        },
      )

  pub exit : ScBridge M → ScBridge M
  exit s = record s {
    io_thread_running = false;
    sock_open = false;
    listen_open = false;
    mmio_pending = false;
  }

  -- Realizing a new device succeeds just when MSI-X, `socket`, `bind` and `listen` do, and only then
  -- the socket listens and the thread runs; otherwise no descriptor stays open. In both
  -- cases it is not connected.
  realize_all_or_nothing :
      (calls : HostCalls) (m : M)
      → (let r = realize calls (instance_init m) in
          let all = calls.msix_init && calls.socket && calls.bind && calls.listen in
          (r.0 ≡ all)
          × (r.1.listen_open ≡ all)
          × (r.1.io_thread_running ≡ all)
          × (r.1.sock_open ≡ false)
          × (r.1.connected ≡ false))
  unfolding realize instance_init
  realize_all_or_nothing calls m =
      (ground arith, ground arith, ground arith, ground arith, ground arith)

  -- Removing the device closes both descriptors and lets a waiting read go on to its end.
  pub exit_wakes :
      (bus : Bus M) (s : ScBridge M) (addr n : ℕ)
      → (let s' = exit s in
          (s'.listen_open ≡ false)
          × (s'.sock_open ≡ false)
          × Step bus (sys s' (waiting addr) n) (sys (mmio_read_end s' addr).1 idle n))
  unfolding exit
  exit_wakes bus s addr n = (refl, refl, finish (exit s) addr n refl)
