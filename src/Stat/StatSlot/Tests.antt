-- ===== src/Stat/StatSlot/Tests.antt =====
-- core/stat/stat_slot.go on nodes of one bucket.
use gmiter.Prelude.{ℕ, refl, true, false, some, [], ◌∷◌, arith}
use gmiter.Stat.LeapArray.WellFormed.{IsWellFormed}
use gmiter.Stat.MetricBucket.{new_metric_bucket}
use gmiter.Stat.Node.{BaseStatNode}
use gmiter.Stat.StatSlot.{Call, Nodes, on_entry_passed, on_entry_blocked, on_completed}
use gmiter.Stat.StatSlot.Keeps.{Counts, Leads, slot-Counts}

abbrev node_with : ℕ → BaseStatNode
node_with concurrency = record {
  sample_count = 1;
  interval = 1000;
  concurrency = concurrency;
  arr = record {
    window = record {
      bucket_length = 1000;
      sample_count = 1;
      interval = 1000;
      slots = some (record { bucket_start = 1000; value = new_metric_bucket }) ∷ [];
    };
  };
  metric = some (record { bucket_length = 1000; sample_count = 1; interval = 1000 });
}

node_with-IsWellFormed : (c : ℕ) → IsWellFormed (node_with c).arr.window
node_with-IsWellFormed c = record {
  positive_length = omega arith;
  positive_count = omega arith;
  spans = refl;
  short = omega arith;
  slot_count = refl;
  aligned = ((1, refl, refl, omega arith), tt);
}

abbrev inbound_call : Call
inbound_call = record { batch_count = 2; inbound = true; start_time = 2400; has_error = false }

abbrev clock : ℕ → ℕ
clock _ = 2500

abbrev nodes : Nodes
nodes = record { stat_node = some (node_with 3); inbound_node = node_with 7 }

nodes-Counts : Counts 3 7 nodes
nodes-Counts = record {
  node = node_with 3;
  held = refl;
  node_well_formed = node_with-IsWellFormed 3;
  node_counts = refl;
  inbound_well_formed = node_with-IsWellFormed 7;
  inbound_counts = refl;
}

slot-Counts_example :
    Leads 4 8 (on_entry_passed inbound_call clock nodes)
    × Leads 3 7 (on_entry_blocked inbound_call (some 2) clock nodes)
    × Leads 2 6 (on_completed inbound_call clock nodes)
slot-Counts_example =
    slot-Counts inbound_call clock nodes 3 7 2 (λ _. (omega arith, omega arith)) nodes-Counts
