-- ===== src/Net/E1000/Examples.antt =====
-- A controller after `new`: a packet is sent, and the device hands one over.
use sovelma_os.Prelude.{ℕ, ◌≡◌, ◌≢◌, refl, none, List, [], ◌∷◌}
use sovelma_os.Net.{MacAddress}
use sovelma_os.Net.E1000.{E1000, Addresses, new, transmit_raw, receive_raw, transmitted}
use sovelma_os.Net.E1000.Rings.{IsReady, begins, Reach-IsReady}

abbrev addresses : Addresses
addresses = record {
  phys_mem_offset = 0x1000;
  tx_descs_at = 0x11000;
  tx_buffers_at = 0x21000;
  rx_descs_at = 0x51000;
  rx_buffers_at = 0x61000;
}

abbrev qemu : MacAddress
qemu = record { mac0 = 0x52; mac1 = 0x54; mac2 = 0; mac3 = 0x12; mac4 = 0x34; mac5 = 0x56 }

-- One buffer and one descriptor each are enough for one packet.
abbrev small : E1000
small = record {
  mac_address = qemu;
  tx_descs =
      record { addr = 0; length = 0; cmd = 0; status = 1 }
      ∷ record { addr = 2048; length = 0; cmd = 0; status = 1 }
      ∷ [];
  tx_buffers = (0 ∷ 0 ∷ 0 ∷ []) ∷ (9 ∷ 9 ∷ []) ∷ [];
  tx_cur = 0;
  rx_descs = record { addr = 0; length = 2; status = 3 } ∷ [];
  rx_buffers = (5 ∷ 6 ∷ 7 ∷ []) ∷ [];
  rx_cur = 0;
  written = [];
}

abbrev sent : E1000
sent =
    transmitted (1 ∷ 2 ∷ []) (0 ∷ 0 ∷ 0 ∷ []) (record { addr = 0; length = 0; cmd = 0; status = 1 })
      small

-- A length beyond the buffer, as the device may report it, panics.
too_long :
    receive_raw (record small { rx_descs = record { addr = 0; length = 4; status = 3 } ∷ [] })
    ≡ none
unfolding receive_raw
too_long = refl

abbrev begun : E1000
begun = new addresses 0x1200_5452 0x8000_5634 0

Reach-IsReady_example :
    IsReady begun
    × ((packet : List ℕ) → transmit_raw packet begun ≢ none)
    × (receive_raw begun ≢ none)
Reach-IsReady_example = Reach-IsReady (begins addresses 0x1200_5452 0x8000_5634 0)
