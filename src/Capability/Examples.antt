-- ===== src/Capability/Examples.antt =====
-- Identifiers and a table of capabilities at work.
use sovelma_os.Prelude.{◌≡◌, false, ◌==◌, none, some, is_some, arith, if◌then◌else◌}
use sovelma_os.Prelude.Maps.{lookup}
use sovelma_os.Capability.{CapId, cap_id_ord, from_u64, as_u64, CapabilityType}
use sovelma_os.Capability.Ids.{from_u64-as_u64}
use sovelma_os.Capability.Table.{
  CapabilityTable, new_table, grant, revoke, Revoked, not_found, has_access, has_access-grant,
  has_access-revoke, Inv, grant-Inv, new_table-Inv,
}

abbrev sample : CapId
sample = record { index = 7; generation = 3 }

from_u64-as_u64_example : from_u64 (as_u64 sample) ≡ sample
from_u64-as_u64_example = from_u64-as_u64 sample (omega arith)

abbrev file_object : CapabilityType
file_object = CapabilityType.file 1

has_access-grant_example :
    let g = grant new_table file_object (some 5) in
    has_access g.1 6 sample
    ≡ (if cap_id_ord.beq g.0 sample then 5 == 6 else has_access new_table 6 sample)
has_access-grant_example = has_access-grant new_table file_object 5 6 sample

abbrev granted : CapabilityTable
granted = (grant new_table file_object (some 5)).1

has_access-revoke_example :
    let r = revoke granted sample in
    (has_access r.1 5 sample
      ≡ (if cap_id_ord.beq sample sample then false else has_access granted 5 sample))
    × (r.0 ≡ (if is_some (lookup sample granted.caps) then Revoked.ok else Revoked.err not_found))
    × (r.1 ≡ (
        if is_some (lookup sample granted.caps)
        then record granted { caps = r.1.caps }
        else granted))
has_access-revoke_example = has_access-revoke granted 5 sample sample

grant-Inv_example :
    (lookup (grant new_table file_object (some 5)).0 new_table.caps ≡ none)
    × Inv (grant new_table file_object (some 5)).1
unfolding new_table
grant-Inv_example = grant-Inv new_table file_object (some 5) new_table-Inv (omega arith)
