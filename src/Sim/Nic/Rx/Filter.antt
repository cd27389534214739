-- ===== src/Sim/Nic/Rx/Filter.antt =====
-- The address filter of on_packet_rx.
use smart_eth.Base.{
  ℕ, ◌+◌, ◌*◌, ◌/◌, ◌%◌, ◌^◌, ◌≤◌, ◌<◌, ◌≡◌, refl, ap, ◌∙◌, arith, true, false, ◌&&◌, ◌||◌, List,
  [], ◌∷◌, ◌++◌, ◌↔◌, length, take, leb, get_or, has, bit_or, bit_and,
}
use smart_eth.Base.Bits.{bit_and-ones, bit_or_comm, bit_or_shift}
use smart_eth.Device.{Mac, mac_lo, mac_hi}
use smart_eth.Sim.RegBlock.{RegBlock, set_mac, get_mac}
use smart_eth.Sim.Nic.{Nic}
use smart_eth.Sim.Nic.Rx.{nic_mac, matches, same_bytes}

abbrev pub IsMac : Mac → Type 0
IsMac m = (m.m0 < 256) × (m.m1 < 256) × (m.m2 < 256) × (m.m3 < 256) × (m.m4 < 256) × (m.m5 < 256)

Mac-ext :
    {a b : Mac}
    → a.m0 ≡ b.m0
    → a.m1 ≡ b.m1
    → a.m2 ≡ b.m2
    → a.m3 ≡ b.m3
    → a.m4 ≡ b.m4
    → a.m5 ≡ b.m5
    → a ≡ b
Mac-ext e0 e1 e2 e3 e4 e5 = cc

low_byte : (x : ℕ) → bit_and x 0xFF ≡ x % 256
low_byte x = bit_and-ones 8 x

bit_or_above : (k x q : ℕ) → x < 2 ^ k → bit_or x (q * 2 ^ k) ≡ x + q * 2 ^ k
bit_or_above k x q h = bit_or_comm x (q * 2 ^ k) ∙ bit_or_shift k q x h ∙ omega arith

-- What the two registers hold.
mac_lo_sum : (m : Mac) → IsMac m → mac_lo m ≡ m.m0 + m.m1 * 256 + m.m2 * 65536 + m.m3 * 16777216
mac_lo_sum m h =
    rw
      (
        bit_or_above 8 m.m0 m.m1 (omega arith),
        bit_or_above 16 (m.m0 + m.m1 * 2 ^ 8) m.m2 (omega arith),
        bit_or_above 24 (m.m0 + m.m1 * 2 ^ 8 + m.m2 * 2 ^ 16) m.m3 (omega arith),
      )
      (omega arith)

mac_hi_sum : (m : Mac) → IsMac m → mac_hi m ≡ m.m4 + m.m5 * 256
mac_hi_sum m h = rw (bit_or_above 8 m.m4 m.m5 (omega arith)) (omega arith)

-- The bytes of the registers, from the lowest.
lo_bytes :
    (m : Mac)
    → IsMac m
    → (bit_and (mac_lo m) 0xFF ≡ m.m0)
      × (bit_and (mac_lo m / 2 ^ 8) 0xFF ≡ m.m1)
      × (bit_and (mac_lo m / 2 ^ 16) 0xFF ≡ m.m2)
      × (bit_and (mac_lo m / 2 ^ 24) 0xFF ≡ m.m3)
lo_bytes m h =
    let e = mac_lo_sum m h in
    (
      low_byte (mac_lo m) ∙ omega (arith, e),
      low_byte (mac_lo m / 2 ^ 8) ∙ omega (arith, e),
      low_byte (mac_lo m / 2 ^ 16) ∙ omega (arith, e),
      low_byte (mac_lo m / 2 ^ 24) ∙ omega (arith, e),
    )

hi_bytes :
    (m : Mac)
    → IsMac m
    → (bit_and (mac_hi m) 0xFF ≡ m.m4) × (bit_and (mac_hi m / 2 ^ 8) 0xFF ≡ m.m5)
hi_bytes m h =
    let e = mac_hi_sum m h in
    (low_byte (mac_hi m) ∙ omega (arith, e), low_byte (mac_hi m / 2 ^ 8) ∙ omega (arith, e))

-- The MAC address that is put in a register block comes back from it.
pub get_mac-set_mac : (m : Mac) (rb : RegBlock) → IsMac m → get_mac (set_mac m rb) ≡ m
unfolding get_mac set_mac
get_mac-set_mac m rb h =
    let lo = lo_bytes m h in
    let hi = hi_bytes m h in
    rw (lo.0, lo.1, lo.2, lo.3, hi.0, hi.1)
      (Mac-ext (omega arith) (omega arith) (omega arith) (omega arith) (omega arith) (omega arith))

-- With that address in the registers, the filter looks for its bytes in another order.
pub nic_mac-set_mac :
    (m : Mac) (n : Nic)
    → IsMac m
    → nic_mac (record n { regs = set_mac m n.regs }) ≡ m.m3 ∷ m.m2 ∷ m.m1 ∷ m.m0 ∷ m.m5 ∷ m.m4 ∷ []
unfolding nic_mac set_mac
nic_mac-set_mac m n h =
    let lo = lo_bytes m h in let hi = hi_bytes m h in rw (lo.0, lo.1, lo.2, lo.3, hi.0, hi.1) refl

abbrev pub mac_bytes : Mac → List ℕ
mac_bytes m = m.m0 ∷ m.m1 ∷ m.m2 ∷ m.m3 ∷ m.m4 ∷ m.m5 ∷ []

matches_by :
    (n : Nic) (frame : List ℕ) {mac : List ℕ}
    → nic_mac n ≡ mac
    → matches n frame
      ≡ (leb 14 (length frame) && (has (get_or frame 0 0) 0x01 || same_bytes (take 6 frame) mac))
unfolding matches
matches_by n frame e =
    ap
      (λ (mac : List ℕ).
        leb 14 (length frame) && (has (get_or frame 0 0) 0x01 || same_bytes (take 6 frame) mac))
      e

-- A unicast frame of at least 14 bytes that is addressed to the NIC's own MAC address, as
-- set_mac puts it in the registers, passes the filter just when the address reads the same
-- after its first four bytes and its last two bytes are each reversed.
pub own_address_passes :
    (m : Mac) (n : Nic) (rest : List ℕ)
    → IsMac m
    → 8 ≤ length rest
    → has m.m0 1 ≡ false
    → (matches (record n { regs = set_mac m n.regs }) (mac_bytes m ++ rest) ≡ true)
      ↔ ((m.m0 ≡ m.m3) × (m.m1 ≡ m.m2) × (m.m4 ≡ m.m5))
own_address_passes m n rest h long unicast =
    rw
      (matches_by (record n { regs = set_mac m n.regs }) (mac_bytes m ++ rest)
        (nic_mac-set_mac m n h))
      (ground arith)
