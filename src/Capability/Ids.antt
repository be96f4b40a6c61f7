-- ===== src/Capability/Ids.antt =====
-- The packing of capability identifiers into 64 bits, as the host calls pass them.
use sovelma_os.Prelude.{ℕ, ◌+◌, ◌*◌, ◌/◌, ◌%◌, ◌^◌, ◌<◌, ◌≡◌, arith}
use sovelma_os.Prelude.Bits.{bit_and_mask, bit_or_shifted}
use sovelma_os.Capability.{CapId, from_u64, as_u64, u32_mod}

-- Both halves of an identifier are 32-bit words.
pub record IsCapId (id : CapId) : Type 0 where
  pub index_fits : id.index < u32_mod
  pub generation_fits : id.generation < u32_mod

as_u64_sum : (id : CapId) → IsCapId id → as_u64 id ≡ id.generation * 2 ^ 32 + id.index
unfolding as_u64
as_u64_sum id h = ground (arith, bit_or_shifted 32 id.generation id.index)

from_u64_fields :
    (v : ℕ) → ((from_u64 v).index ≡ v % 2 ^ 32) × ((from_u64 v).generation ≡ v / 2 ^ 32 % 2 ^ 32)
unfolding from_u64
from_u64_fields v = ground (arith, bit_and_mask 32 v)

-- An identifier survives the trip to an application and back: packing it into 64 bits loses
-- nothing, whenever its index and its generation are 32-bit words.
pub from_u64-as_u64 : (id : CapId) → IsCapId id → from_u64 (as_u64 id) ≡ id
from_u64-as_u64 id h = ground (arith, as_u64_sum id h, from_u64_fields (as_u64 id))

-- Conversely every 64-bit word is the packed form of the identifier that it unpacks to, and that
-- identifier has 32-bit halves, so an application can name no identifier twice.
pub as_u64-from_u64 : (v : ℕ) → v < 2 ^ 64 → (as_u64 (from_u64 v) ≡ v) × IsCapId (from_u64 v)
as_u64-from_u64 v h =
    let f = from_u64_fields v in
    let fits : IsCapId (from_u64 v) = omega arith in
    (omega (arith, as_u64_sum (from_u64 v) fits), fits)
