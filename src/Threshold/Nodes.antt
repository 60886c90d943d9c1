-- ===== src/Threshold/Nodes.antt =====
-- The discovery of threshold nodes: `LinuxChargeThreshold`, `nodes` and `discover`.
use wattwarden.Base.{
  Text, Option, none, some, List, [], ◌∷◌, ◌++◌, filter_map, find_first, if◌then◌else◌,
}
use wattwarden.Sysfs.{
  World, Node, SupplyDir, supply, asus_nb_wmi, huawei_wmi, SupplyLeaf, charge_control_end_threshold,
  charge_stop_threshold, charge_control_limit_max, charge_control_start_threshold, charge_types,
  charge_thresholds, supply_node, power_supply_base, exists,
}

pub record ThresholdNode : Type 0 where
  pub end : Node
  pub start : Option Node
  pub types : Option Node

-- In driver-precedence order.
abbrev pub end_suffixes : List SupplyLeaf
end_suffixes = charge_control_end_threshold ∷ charge_stop_threshold ∷ charge_control_limit_max ∷ []

-- The platform drivers' paths.
abbrev pub direct_end_paths : List (SupplyDir × SupplyLeaf)
direct_end_paths =
    (asus_nb_wmi, charge_control_end_threshold) ∷ (huawei_wmi, charge_thresholds) ∷ []

pub record LinuxChargeThreshold : Type 0 where
  -- Test override: operate on exactly these nodes instead of discovering.
  pub fixed : Option (List ThresholdNode)

abbrev pub with_root : LinuxChargeThreshold
with_root = record { fixed = none }

-- `exists().then_some(path)`
present_node : World → Node → Option Node
present_node w p = if exists w p then some p else none

-- The node whose end threshold is the file `leaf` of `dir`.
node_at : World → SupplyDir → SupplyLeaf → ThresholdNode
unfolding present_node
node_at w dir leaf = record {
  end = supply_node dir leaf;
  start = present_node w (supply_node dir charge_control_start_threshold);
  types = present_node w (supply_node dir charge_types);
}

at_leaf : World → SupplyDir → Option SupplyLeaf → Option ThresholdNode
unfolding node_at
at_leaf w dir none = none
at_leaf w dir (some leaf) = some (node_at w dir leaf)

-- The first of the known end-threshold files of a power supply.
supply_threshold : World → Text → Option ThresholdNode
unfolding at_leaf
supply_threshold w name =
    at_leaf w (supply name)
      (find_first (λ leaf. exists w (supply_node (supply name) leaf)) end_suffixes)

direct_threshold : World → SupplyDir × SupplyLeaf → Option ThresholdNode
unfolding node_at
direct_threshold w (dir, leaf) =
    if exists w (supply_node dir leaf) then some (node_at w dir leaf) else none

discover : World → List ThresholdNode
unfolding supply_threshold direct_threshold
discover w =
    filter_map (supply_threshold w) (w.tree.names power_supply_base)
    ++ filter_map (direct_threshold w) direct_end_paths

abbrev fixed_or : Option (List ThresholdNode) → List ThresholdNode → List ThresholdNode
fixed_or none found = found
fixed_or (some ns) found = ns

unfoldable pub nodes : LinuxChargeThreshold → World → List ThresholdNode
unfolding discover
nodes t w = fixed_or t.fixed (discover w)
