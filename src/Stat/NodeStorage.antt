-- ===== src/Stat/NodeStorage.antt =====
-- core/stat/resource_node.go, core/stat/node_storage.go and core/stat/stat_prepare_slot.go: the nodes of the
-- resources by name. The map is a list of pairs whose newest entry for a name counts.
use gmiter.Prelude.{ℕ, Option, none, some, List, [], ◌∷◌, if◌then◌else◌}
use gmiter.Prelude.Strings.{Bytes, same_string}
use gmiter.Stat.Node.{BaseStatNode, new_base_stat_node}
use mathlib.Core.Option.{map as map_option}

pub record ResourceNode : Type 0 where
  pub base : BaseStatNode
  pub resource_name : Bytes
  pub resource_type : ℕ  -- an int32

-- The numbers that the code takes from the configuration.
pub record Settings : Type 0 where
  pub total_sample_count : ℕ
  pub total_interval : ℕ
  pub sample_count : ℕ
  pub interval : ℕ

unfoldable pub new_resource_node : Settings → Bytes → (resource_type now : ℕ) → Option ResourceNode
new_resource_node c name resource_type now =
    map_option (λ n. record { base = n; resource_name = name; resource_type = resource_type })
      (new_base_stat_node c.total_sample_count c.total_interval c.sample_count c.interval now)

abbrev pub NodeMap : Type 0
NodeMap = List (Bytes × ResourceNode)

unfoldable pub get_resource_node : NodeMap → Bytes → Option ResourceNode
get_resource_node [] name = none
get_resource_node ((key, node) ∷ nodes) name =
    if same_string key name then some node else get_resource_node nodes name

-- A new node is stored even when there are more than the default maximum, with a warning. None is
-- a panic of the constructor.
unfoldable pub get_or_create_resource_node :
    Settings → NodeMap → Bytes → (resource_type now : ℕ) → Option (NodeMap × ResourceNode)
get_or_create_resource_node c nodes name resource_type now = elim (get_resource_node nodes name) [
  | some node ↦ some (nodes, node)
  | none ↦
      map_option (λ node. ((name, node) ∷ nodes, node)) (new_resource_node c name resource_type now)
]
