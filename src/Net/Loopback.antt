-- ===== src/Net/Loopback.antt =====
-- kernel/src/net/device.rs: the loopback device, and kernel/src/net/mod.rs: the choice between it
-- and the network controller. A packet is a list of bytes.
pub mod Queues
mod Examples
use sovelma_os.Prelude.{
  ℕ, Bool, true, false, ltb, List, [], ◌∷◌, ◌++◌, Option, none, some, length, replicate,
  if◌then◌else◌,
}
use sovelma_os.Net.{MacAddress}
use sovelma_os.Net.E1000.{E1000}

abbrev pub queue_capacity : ℕ
queue_capacity = 16

pub record QemuE1000 : Type 0 where
  pub rx_queue : List (List ℕ)
  pub tx_queue : List (List ℕ)
  pub mac_address : MacAddress

unfoldable pub new : QemuE1000
new = record {
  rx_queue = [];
  tx_queue = [];
  mac_address = record {
    mac0 = 0x52;
    mac1 = 0x54;
    mac2 = 0x00;
    mac3 = 0x12;
    mac4 = 0x34;
    mac5 = 0x56;
  };
}

-- `push_back` where the queue has room.
unfoldable pub push_bounded : List ℕ → List (List ℕ) → List (List ℕ)
push_bounded packet queue =
    if ltb (length queue) queue_capacity then queue ++ packet ∷ [] else queue

unfoldable pub inject_rx : List ℕ → QemuE1000 → QemuE1000
unfolding push_bounded
inject_rx packet dev = record dev { rx_queue = push_bounded packet dev.rx_queue }

unfoldable pub drain_tx : QemuE1000 → List (List ℕ) × QemuE1000
drain_tx dev = (dev.tx_queue, record dev { tx_queue = [] })

-- `E1000TxToken::consume`: `f` fills a buffer of `len` zeros.
unfoldable pub consume : (len : ℕ) → (f : List ℕ → List ℕ) → QemuE1000 → QemuE1000
unfolding push_bounded
consume len f dev = record dev { tx_queue = push_bounded (f (replicate len 0)) dev.tx_queue }

-- The packet of the receive token; the transmit token comes with it.
unfoldable pub receive : QemuE1000 → Option (List ℕ) × QemuE1000
receive dev = elim dev.rx_queue [
  | [] ↦ (none, dev)
  | packet ∷ rest ↦ (some packet, record dev { rx_queue = rest })
]

-- Whether there is a transmit token.
unfoldable pub transmit : QemuE1000 → Bool
transmit dev = ltb (length dev.tx_queue) queue_capacity

-- `NetworkDevice`.
pub data NetworkDevice : Type 0 where
  e1000 : E1000 → NetworkDevice
  loopback : QemuE1000 → NetworkDevice

-- `probe`, of what the probe of the controller gave.
unfoldable pub probe : Option E1000 → NetworkDevice
unfolding new
probe none = loopback new
probe (some dev) = e1000 dev

unfoldable pub device_mac_address : NetworkDevice → MacAddress
device_mac_address (e1000 dev) = dev.mac_address
device_mac_address (loopback dev) = dev.mac_address

unfoldable pub is_real : NetworkDevice → Bool
is_real (e1000 dev) = true
is_real (loopback dev) = false
