-- ===== src/Capability.antt =====
-- common/src/capability.rs: capability identifiers, rights and resources, which the kernel and
-- the applications share; kernel/src/capability/mod.rs is in the child `Table`.
-- The flag operations that the macro `bitflags!` generates are a parameter, `BitFlags`.
pub mod CapabilityRights
pub mod Ids
pub mod Rights
pub mod Table
mod Examples
use sovelma_os.Prelude.{
  ℕ, ◌+◌, ◌*◌, ◌/◌, ◌%◌, ◌^◌, ◌≡◌, ◌↔◌, Bool, true, ◌&&◌, ◌||◌, Option, some, arith, bit_and,
  bit_or, ltb, ◌==◌,
}
use sovelma_os.Prelude.Maps.{Ord}

pub record CapId : Type 0 where
  pub index : ℕ
  pub generation : ℕ

abbrev pub u32_mod : ℕ
u32_mod = 2 ^ 32

-- `val & 0xFFFFFFFF` and `val >> 32`, cut to 32 bits.
unfoldable pub from_u64 : ℕ → CapId
from_u64 val = record {
  index = bit_and val 0xffff_ffff % u32_mod;
  generation = val / 2 ^ 32 % u32_mod;
}

-- `(generation << 32) | index` on 64 bits.
unfoldable pub as_u64 : CapId → ℕ
as_u64 id = bit_or (id.generation * 2 ^ 32 % 2 ^ 64) id.index

-- `fetch_add(1)` on an `AtomicU32`: the old value, and the counter afterwards.
unfoldable pub fetch_add_u32 : ℕ → ℕ × ℕ
fetch_add_u32 counter = (counter, (counter + 1) % u32_mod)

-- `CapId::next`; the argument is the static `NEXT_INDEX`, which starts at 100.
unfoldable pub next : ℕ → CapId × ℕ
unfolding fetch_add_u32
next next_index =
    let (index, next_index') = fetch_add_u32 next_index in
    (record { index = index; generation = 0 }, next_index')

-- The derived order: the index first, then the generation.
abbrev CapId-beq : CapId → CapId → Bool
CapId-beq a b = a.index == b.index && a.generation == b.generation

abbrev CapId-blt : CapId → CapId → Bool
CapId-blt a b = ltb a.index b.index || (a.index == b.index && ltb a.generation b.generation)

pub CapId-beq_iff : (a b : CapId) → (CapId-beq a b ≡ true) ↔ (a ≡ b)
CapId-beq_iff a b = (λ h. ground arith, λ h. ground arith)

instance abbrev pub cap_id_ord : Ord CapId
cap_id_ord = record { beq = CapId-beq; blt = CapId-blt; beq_iff = CapId-beq_iff }

-- What the macro `bitflags!` generates over a 32-bit word, as its documentation states it.
pub record BitFlags : Type 0 where
  pub contains : ℕ → ℕ → Bool
  pub union : ℕ → ℕ → ℕ
  pub intersection : ℕ → ℕ → ℕ
  pub contains_iff : (a b : ℕ) → (contains a b ≡ true) ↔ (bit_and a b ≡ b)
  pub union_eq : (a b : ℕ) → union a b ≡ bit_or a b
  pub intersection_eq : (a b : ℕ) → intersection a b ≡ bit_and a b

pub data CapabilityType : Type 0 where
  memory : (start size : ℕ) → CapabilityType
  serial : (port : ℕ) → CapabilityType
  timer : CapabilityType
  interrupt : (irq : ℕ) → CapabilityType
  network directory file mutex semaphore : ℕ → CapabilityType

pub record Capability : Type 0 where
  pub id : CapId
  pub rights : ℕ
  pub object : CapabilityType
  pub generation : ℕ

-- `Capability::new`; the counter is its own static `NEXT_INDEX`, which starts at 1.
unfoldable pub new_capability : ℕ → CapabilityType → ℕ → Capability × ℕ
unfolding fetch_add_u32
new_capability next_index object rights =
    let (index, next_index') = fetch_add_u32 next_index in
    (
      record {
        id = record { index = index; generation = 0 };
        rights = rights;
        object = object;
        generation = 0;
      },
      next_index',
    )
