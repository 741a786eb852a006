-- ===== src/SkipList/Release.antt =====
-- `skip_listnode_destroy` at a node.
use timeseries_database.Base.{◌≡◌, ◌≢◌, refl, ◌∙◌, ap, some}
use timeseries_database.NodeHeap.{Ptr, null, valid, Header, Heap, ok, release, eq_of_ne}
use timeseries_database.SkipList.{skip_listnode_destroy, free_both}

-- What happens goes by the array of the node.
pub destroy-free_both :
    (p : Ptr) (h : Heap) (n : Header)
    → p ≢ null
    → h.node p ≡ some n
    → skip_listnode_destroy p h ≡ free_both n.array p h
unfolding skip_listnode_destroy
destroy-free_both p h n ne at = rw (skip_listnode_destroy, eq_of_ne p null ne, at) refl

-- A node whose array was allocated is freed with it.
pub destroy-release :
    (p : Ptr) (h : Heap) (n : Header)
    → p ≢ null
    → h.node p ≡ some n
    → n.array ≡ valid
    → skip_listnode_destroy p h ≡ ok tt (release p h)
destroy-release p h n ne at array = destroy-free_both p h n ne at ∙ ap (λ a. free_both a p h) array
