-- ===== src/Capability/Table.antt =====
-- kernel/src/capability/mod.rs: the kernel's table of capabilities, owned by tasks.
use sovelma_os.Prelude.{
  ℕ, ◌+◌, ◌<◌, ◌≤◌, ◌≡◌, refl, Bool, false, ◌==◌, [], Option, none, some, is_some, arith,
  if◌then◌else◌,
}
use sovelma_os.Prelude.Maps.{BTreeMap, lookup, insert, remove, lookup-insert, lookup-remove}
use sovelma_os.Capability.{CapId, CapabilityType, next, cap_id_ord, u32_mod, CapId-beq_iff}

pub record OwnedCapability : Type 0 where
  pub id : CapId
  pub resource : CapabilityType
  pub owner_task_id : Option ℕ

-- The table, beside the static counter that `CapId::next` draws from.
pub record CapabilityTable : Type 0 where
  pub caps : BTreeMap CapId OwnedCapability
  pub next_index : ℕ

pub data CapError : Type 0 where
  not_found permission_denied : CapError

pub data Revoked : Type 0 where
  ok : Revoked
  err : CapError → Revoked

unfoldable pub new_table : CapabilityTable
new_table = record { caps = []; next_index = 100 }

unfoldable pub grant : CapabilityTable → CapabilityType → Option ℕ → CapId × CapabilityTable
grant t resource owner =
    let (id, next_index') = next t.next_index in
    (
      id,
      record {
        caps = insert id (record { id = id; resource = resource; owner_task_id = owner }) t.caps;
        next_index = next_index';
      },
    )

unfoldable pub revoke : CapabilityTable → CapId → Revoked × CapabilityTable
revoke t id =
    if is_some (lookup id t.caps)
    then (Revoked.ok, record t { caps = remove id t.caps })
    else (Revoked.err not_found, t)

-- `cap.owner_task_id == Some(task_id)`.
abbrev owned_by : ℕ → Option ℕ → Bool
owned_by task none = false
owned_by task (some owner) = owner == task

unfoldable pub has_access : CapabilityTable → ℕ → CapId → Bool
has_access t task id = elim (lookup id t.caps) [
  | none ↦ false
  | some cap ↦ owned_by task cap.owner_task_id
]

-- A grant gives its task access under the identifier that it returns, gives no other task access
-- under it, and leaves access under every other identifier as it was.
pub has_access-grant :
    (t : CapabilityTable) (resource : CapabilityType) (owner task : ℕ) (id : CapId)
    → let g = grant t resource (some owner) in
      has_access g.1 task id
      ≡ (if cap_id_ord.beq g.0 id then owner == task else has_access t task id)
unfolding grant has_access
has_access-grant t resource owner task id = ground (
  arith,
  lookup-insert (next t.next_index).0 id
      (record { id = (next t.next_index).0; resource = resource; owner_task_id = some owner })
      t.caps,
)

-- A revocation ends all access under the identifier and touches no other; it reports an unknown
-- identifier exactly when there was nothing to revoke, and then it changes nothing. The counter of
-- identifiers stays where it was in either case.
pub has_access-revoke :
    (t : CapabilityTable) (task : ℕ) (id other : CapId)
    → let r = revoke t id in
      (has_access r.1 task other
        ≡ (if cap_id_ord.beq id other then false else has_access t task other))
      × (r.0 ≡ (if is_some (lookup id t.caps) then Revoked.ok else Revoked.err not_found))
      × (r.1 ≡ (if is_some (lookup id t.caps) then record t { caps = r.1.caps } else t))
unfolding revoke has_access
has_access-revoke t task id other = (
  ground (arith, lookup-remove id other t.caps, CapId-beq_iff id other),
  ground arith,
  ground arith,
)

-- Identifiers below the counter only: what `grant` hands out next is not in the table.
pub record Inv (t : CapabilityTable) : Type 0 where
  pub fresh : (id : CapId) → t.next_index ≤ id.index → lookup id t.caps ≡ none
  pub low : t.next_index < u32_mod

-- Until the 32-bit counter wraps, a grant returns an identifier that the table did not hold, so no
-- grant replaces an earlier one, and the next grant is fresh again.
pub grant-Inv :
    (t : CapabilityTable) (resource : CapabilityType) (owner : Option ℕ)
    → Inv t
    → t.next_index + 1 < u32_mod
    → (lookup (grant t resource owner).0 t.caps ≡ none) × Inv (grant t resource owner).1
unfolding grant next
grant-Inv t resource owner v h = (
  v.fresh _ (omega arith),
  record {
    fresh = λ id le. ground (
      arith,
      v.fresh id,
      lookup-insert (record { index = t.next_index; generation = 0 }) id
          (record {
            id = record { index = t.next_index; generation = 0 };
            resource = resource;
            owner_task_id = owner;
          })
          t.caps,
    );
    low = ground arith;
  },
)

pub new_table-Inv : Inv new_table
unfolding new_table lookup
new_table-Inv = record { fresh = λ id le. refl; low = omega arith }
