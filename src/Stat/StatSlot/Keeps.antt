-- ===== src/Stat/StatSlot/Keeps.antt =====
-- core/stat/stat_slot.go on nodes that are well formed: the numbers of calls in flight.
use gmiter.Prelude.{
  ℕ, ◌+◌, ◌≡◌, refl, ap, ◌∙◌, Bool, true, false, Option, some, if◌then◌else◌, Bool-cases,
  Option-cases, inl, inr,
}
use gmiter.Stat.LeapArray.WellFormed.{IsWellFormed}
use gmiter.Stat.Event
use gmiter.Stat.Node
use gmiter.Stat.Node.{BaseStatNode, next32, previous32}
use gmiter.Stat.Node.Totality.{IsTime, Gives, add_count_with_time-Gives, increase_concurrency-Gives}
use gmiter.Stat.StatSlot.{
  Call, Nodes, record_pass_for, record_block_for, record_block_for_type, event_of_block_type,
  with_error, record_complete_for, for_stat_node, for_inbound, for_both, on_entry_passed,
  on_entry_blocked, on_completed,
}
use mathlib.Core.Option.{map as map_option}
use mathlib.Core.Path.{subst}

abbrev pub IsClock : (ℕ → ℕ) → Type 0
IsClock clock = (i : ℕ) → IsTime (clock i)

-- A record that a well-formed node takes, and that changes its number in flight by `f`.
abbrev Records : (ℕ → ℕ) → (BaseStatNode → Option BaseStatNode) → Type 0
Records f g = (n : BaseStatNode) → IsWellFormed n.arr.window → Gives (f n.concurrency) (g n)

record_pass_for-Records :
    (count : ℕ) (clock : ℕ → ℕ) → IsClock clock → Records next32 (record_pass_for count clock)
unfolding record_pass_for
record_pass_for-Records count clock times n wf =
    let (n', e, wf', c) = increase_concurrency-Gives n (clock 0) wf (times 0) in
    let (n'', e', wf'', c') =
      add_count_with_time-Gives n' (clock 1) wf' (times 1) Event.pass count in
    (n'', rw (e, record_pass_for) e', wf'', c' ∙ c)

record_block_for-Records :
    (count : ℕ) (clock : ℕ → ℕ) → IsClock clock → Records (λ c. c) (record_block_for count clock)
unfolding record_block_for
record_block_for-Records count clock times n wf =
    add_count_with_time-Gives n (clock 0) wf (times 0) Event.block count

record_block_for_type-Records :
    (block_type count : ℕ) (clock : ℕ → ℕ)
    → IsClock clock
    → Records (λ c. c) (record_block_for_type block_type count clock)
unfolding record_block_for_type
record_block_for_type-Records block_type count clock times n wf =
    elim (Option-cases (event_of_block_type block_type)) [
      | inl missing ↦ rw (missing, record_block_for_type) (n, refl, wf, refl)
      | inr (event, e) ↦
          rw (e, record_block_for_type)
            (add_count_with_time-Gives n (clock 0) wf (times 0) event count)
    ]

with_error-Records :
    (has_error : Bool) (count now : ℕ)
    → IsTime now
    → Records (λ c. c) (with_error has_error count now)
with_error-Records true count now time n wf =
    add_count_with_time-Gives n now wf time Event.error count
with_error-Records false count now time n wf = (n, refl, wf, refl)

record_complete_for-Records :
    (count rt : ℕ) (has_error : Bool) (clock : ℕ → ℕ)
    → IsClock clock
    → Records previous32 (record_complete_for count rt has_error clock)
unfolding record_complete_for Node.decrease_concurrency
record_complete_for-Records count rt has_error clock times n wf =
    let (n', e, wf', c) = with_error-Records has_error count (clock 0) (times 0) n wf in
    let (n'', e', wf'', c') = add_count_with_time-Gives n' (clock 1) wf' (times 1) Event.rt rt in
    let (n''', e'', wf''', c'') =
      add_count_with_time-Gives n'' (clock 2) wf'' (times 2) Event.complete count in
    (
      Node.decrease_concurrency n''',
      rw (e, record_complete_for)
          (rw (e', record_complete_for) (ap (map_option Node.decrease_concurrency) e'')),
      wf''',
      ap previous32 (c'' ∙ c' ∙ c),
    )

-- Both nodes are there and well formed, with `c` and `d` calls in flight.
pub record Counts (c d : ℕ) (ns : Nodes) : Type 0 where
  pub node : BaseStatNode
  pub held : ns.stat_node ≡ some node
  pub node_well_formed : IsWellFormed node.arr.window
  pub node_counts : node.concurrency ≡ c
  pub inbound_well_formed : IsWellFormed ns.inbound_node.arr.window
  pub inbound_counts : ns.inbound_node.concurrency ≡ d

abbrev pub Leads : (c d : ℕ) → Option Nodes → Type 0
Leads c d o = (ns : Nodes) × (o ≡ some ns) × Counts c d ns

-- The number in flight of the inbound node, which `f` changes for an inbound call.
abbrev pub if_inbound : Call → (ℕ → ℕ) → ℕ → ℕ
if_inbound call f d = if call.inbound then f d else d

module _ (f : ℕ → ℕ) {c d : ℕ} (call : Call) (ns : Nodes) (s : Counts c d ns) where
  for_stat_node-Leads :
      (g : BaseStatNode → Option BaseStatNode) → Records f g → Leads (f c) d (for_stat_node g ns)
  unfolding for_stat_node
  for_stat_node-Leads g records =
      let (sn, e, wf, counts) = records s.node s.node_well_formed in
      (
        record { stat_node = some sn; inbound_node = ns.inbound_node },
        rw (s.held, for_stat_node) (rw e refl),
        record {
          node = sn;
          held = refl;
          node_well_formed = wf;
          node_counts = counts ∙ ap f s.node_counts;
          inbound_well_formed = s.inbound_well_formed;
          inbound_counts = s.inbound_counts;
        },
      )

  for_inbound-Leads :
      (g : BaseStatNode → Option BaseStatNode)
      → Records f g
      → Leads c (if_inbound call f d) (for_inbound call g ns)
  unfolding for_inbound
  for_inbound-Leads g records = elim (Bool-cases call.inbound) [
    | inl yes_inbound ↦
        let (sn, e, wf, counts) = records ns.inbound_node s.inbound_well_formed in
        rw yes_inbound (
          record { stat_node = ns.stat_node; inbound_node = sn },
          rw e refl,
          record {
            node = s.node;
            held = s.held;
            node_well_formed = s.node_well_formed;
            node_counts = s.node_counts;
            inbound_well_formed = wf;
            inbound_counts = counts ∙ ap f s.inbound_counts;
          },
        )
    | inr not_inbound ↦ rw not_inbound (ns, refl, s)
  ]

for_both-Leads :
    (f : ℕ → ℕ) {c d : ℕ} (call : Call) (ns : Nodes)
    → Counts c d ns
    → (g : (ℕ → ℕ) → BaseStatNode → Option BaseStatNode)
    → ((clock : ℕ → ℕ) → IsClock clock → Records f (g clock))
    → (clock : ℕ → ℕ) → IsClock clock
    → Leads (f c) (if_inbound call f d) (for_both call g clock ns)
unfolding for_both
for_both-Leads f call ns s g records clock times =
    let (ns', e, s') = for_stat_node-Leads f call ns s (g clock) (records clock times) in
    let (ns'', e', s'') =
      for_inbound-Leads f call ns' s' (g (λ i. clock (4 + i)))
        (records (λ i. clock (4 + i)) (λ i. times (4 + i))) in
    (ns'', rw (e, for_both) e', s'')

if_same : (b : Bool) (d : ℕ) → (if b then d else d) ≡ d
if_same true d = refl
if_same false d = refl

module _ (call : Call) (clock : ℕ → ℕ) (ns : Nodes) (c d : ℕ) (times : IsClock clock)
    (s : Counts c d ns) where
  pub on_entry_passed-Leads :
      Leads (next32 c) (if_inbound call next32 d) (on_entry_passed call clock ns)
  unfolding on_entry_passed
  on_entry_passed-Leads =
      for_both-Leads next32 call ns s (record_pass_for call.batch_count)
        (record_pass_for-Records call.batch_count) clock times

  pub on_completed-Leads :
      Leads (previous32 c) (if_inbound call previous32 d) (on_completed call clock ns)
  unfolding on_completed
  on_completed-Leads =
      for_both-Leads previous32 call ns s _
        (λ at. record_complete_for-Records call.batch_count _ call.has_error at) clock times

  pub on_entry_blocked-Leads :
      (block_type : ℕ) → Leads c d (on_entry_blocked call (some block_type) clock ns)
  unfolding on_entry_blocked
  on_entry_blocked-Leads block_type =
      let (ns', e, s') =
        for_stat_node-Leads (λ x. x) call ns s (record_block_for call.batch_count clock)
          (record_block_for-Records call.batch_count clock times) in
      let (ns'', e', s'') =
        for_stat_node-Leads (λ x. x) call ns' s'
          (record_block_for_type block_type call.batch_count (λ i. clock (1 + i)))
          (record_block_for_type-Records block_type call.batch_count _ (λ i. times (1 + i))) in
      let (ns''', e'', s''') =
        for_inbound-Leads (λ x. x) call ns'' s''
          (record_block_for call.batch_count (λ i. clock (4 + i)))
          (record_block_for-Records call.batch_count _ (λ i. times (4 + i))) in
      (
        ns''',
        rw (e, on_entry_blocked) (rw (e', on_entry_blocked) e''),
        subst (λ x. Counts c x ns''') (if_same call.inbound d) s''',
      )

-- With well-formed nodes and clock readings between 0 and 2 ^ 63 the three callbacks of the slot
-- return: a call that passes is one more in flight of its resource, a call that is refused none, a call that ends one
-- less; the inbound node counts the same for inbound calls and nothing for others.
pub slot-Counts :
    (call : Call) (clock : ℕ → ℕ) (ns : Nodes) (c d block_type : ℕ)
    → IsClock clock
    → Counts c d ns
    → Leads (next32 c) (if_inbound call next32 d) (on_entry_passed call clock ns)
      × Leads c d (on_entry_blocked call (some block_type) clock ns)
      × Leads (previous32 c) (if_inbound call previous32 d) (on_completed call clock ns)
slot-Counts call clock ns c d block_type times s = (
  on_entry_passed-Leads call clock ns c d times s,
  on_entry_blocked-Leads call clock ns c d times s block_type,
  on_completed-Leads call clock ns c d times s,
)
