-- ===== src/Sync/Registry/Examples.antt =====
-- The registries as the kernel sets them up, on queues that are lists.
use sovelma_os.Prelude.{ℕ, ◌≡◌, none, some, ◌==◌, arith, if◌then◌else◌}
use sovelma_os.ArrayQueue.{ArrayQueue, list_queue}
use sovelma_os.Sync.Mutex
use sovelma_os.Sync.Registry.{Registry, init_registries, create_mutex, get_mutex}
use sovelma_os.Sync.Registry.Handles.{IsFresh, init_registries-IsFresh, create_mutex_lem}

abbrev queue : ArrayQueue ℕ
queue = list_queue ℕ

abbrev begun : Registry queue
begun = init_registries queue

create_mutex_lem_example :
    let (handle, r') = create_mutex queue begun in
    (get_mutex queue begun handle ≡ none)
    × (get_mutex queue r' 1
        ≡ (if handle == 1 then some (Mutex.new queue tt) else get_mutex queue begun 1))
    × IsFresh queue r'
unfolding init_registries
create_mutex_lem_example =
    create_mutex_lem queue begun 1 (init_registries-IsFresh queue) (omega arith)

abbrev with_one : Registry queue
with_one = (create_mutex queue begun).1
