-- ===== src/Store/Tree.antt =====
-- internal/store/tree.go: the two trees of a storage, its locations and its categories. The tree lock
-- orders the transactions that change one storage's trees; here transactions run one by one.
pub mod Rooted
pub mod Cycles
pub mod Edits
use inventory.Prelude.{
  ℕ, zero, suc, Option, none, some, List, [], ◌∷◌, map, Bool, false, not, ◌||◌, ◌==◌, is_some,
  member, if◌then◌else◌,
}
use inventory.Prelude.Table.{find}
use inventory.Store.Schema.{RowId, Location, Category, Inventory, location_key, category_key}
use inventory.Store.Tx.{conflict, not_found, Tx, ◌>>=◌, ◌>>◌, pure, refuse_if, gets}
use inventory.Store.ShelfLife.{max_tree_depth, find_by, own_category}

pub data TreeTable : Type 0 where
  tree_locations tree_categories : TreeTable

-- The columns that the two tables share.
pub record Node : Type 0 where
  pub id : RowId
  pub storage_id : RowId
  pub parent_id : Option RowId

abbrev pub node_key : Node → RowId
node_key n = n.id

abbrev pub location_node : Location → Node
location_node l = record { id = l.id; storage_id = l.storage_id; parent_id = l.parent_id }

abbrev category_node : Category → Node
category_node c = record { id = c.id; storage_id = c.storage_id; parent_id = c.parent_id }

-- The rows of a tree's table.
abbrev pub nodes : TreeTable → Inventory → List Node
nodes tree_locations t = map location_node t.locations
nodes tree_categories t = map category_node t.categories

abbrev in_storage_node : RowId → Option Node → Option Node
in_storage_node storage none = none
in_storage_node storage (some n) = if n.storage_id == storage then some n else none

-- SELECT … WHERE id = $1 AND storage_id = $2
unfoldable pub find_node : RowId → RowId → List Node → Option Node
unfolding find
find_node storage id ns = in_storage_node storage (find node_key id ns)

-- `requireSameStorage`
unfoldable pub require_in_tree : TreeTable → RowId → RowId → Tx (Unit {0})
unfolding find_node
require_in_tree table storage id s =
    refuse_if (not (is_some (find_node storage id (nodes table s.db.tables)))) not_found s

-- The recursive query: the ids from a node up, one row to a level, at most `depth` of them.
unfoldable pub ancestors : ℕ → List Node → Option Node → List RowId
ancestors zero ns n = []
ancestors (suc depth) ns none = []
ancestors (suc depth) ns (some n) =
    n.id ∷ ancestors depth ns (find_by (λ id. find node_key id ns) n.parent_id)

-- `wouldCycle`
unfoldable pub would_cycle : List Node → RowId → RowId → Bool
unfolding ancestors find
would_cycle ns node parent =
    node == parent || member node (ancestors max_tree_depth ns (find node_key parent ns))

-- The check that only a move needs: for an insert there is no node yet.
unfoldable pub refuse_cycle : TreeTable → Option RowId → RowId → Tx (Unit {0})
unfolding would_cycle
refuse_cycle table none parent s = pure tt s
refuse_cycle table (some node) parent s =
    refuse_if (would_cycle (nodes table s.db.tables) node parent) conflict s

-- `resolveParent`
unfoldable pub resolve_parent : TreeTable → RowId → Option RowId → Option RowId → Tx (Unit {0})
unfolding require_in_tree refuse_cycle
resolve_parent table storage moved none = pure tt
resolve_parent table storage moved (some parent) =
    require_in_tree table storage parent >> refuse_cycle table moved parent
