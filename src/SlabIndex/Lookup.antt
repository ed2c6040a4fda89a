-- ===== src/SlabIndex/Lookup.antt =====
-- Lookups in a slab index with distinct slabs.
use limnifs_py.Prelude.{ℕ, ◌≡◌, ◌↔◌, some, In, find_first_iff}
use limnifs_py.FormatTypes.{SlabId, slab_id_eq}
use limnifs_py.Locator.{CharClasses}
use limnifs_py.SlabIndex.{SlabIndexEntry, SlabIndex, index_key, find}
use limnifs_py.SlabIndex.Format.{IsSlabIndex}

-- In a valid slab index a lookup finds an entry exactly if the entry is there and is the slab's.
pub find_iff :
    (chars : CharClasses) (max : ℕ) (index : SlabIndex) (slab_id : SlabId) (entry : SlabIndexEntry)
    → IsSlabIndex chars max index
    → (find index slab_id ≡ some entry) ↔ (In entry index.entries × (entry.slab_id ≡ slab_id))
unfolding find
find_iff chars max index slab_id entry v = find_first_iff index_key index.entries slab_id entry v.2
