-- ===== src/Isolation/InFlight.antt =====
-- The calls in flight of a resource under an isolation rule: core/isolation/slot.go and
-- core/stat/stat_slot.go together, on one goroutine.
use gmiter.Prelude.{
  ℕ, if◌then◌else◌, zero, suc, ◌%◌, ◌≤◌, ◌<◌, ◌≡◌, refl, sym, ap, ◌∙◌, false, Option, none, some,
  List, [], ◌∷◌, mod32, half32, half64, some_inj, arith, get_elem?, inl, inr, lt→ltb,
}
use gmiter.Prelude.Strings.{Bytes, is_empty}
use gmiter.Chain.TokenResult.{
  TokenResult, is_blocked, new_token_result_blocked_with_cause, new_token_result_with,
  new_block_error_with_cause, reset_to_blocked_with_cause,
}
use gmiter.Stat.LeapArray.WellFormed.{IsWellFormed}
use gmiter.Stat.Node.{BaseStatNode, next32, previous32, new_base_stat_node}
use gmiter.Stat.Node.Totality.{new_base_stat_node-Gives}
use gmiter.Stat.StatSlot.{Call, Nodes, on_entry_passed, on_entry_blocked, on_completed}
use gmiter.Stat.StatSlot.Keeps.{
  IsClock, Counts, if_inbound, on_entry_passed-Leads, on_entry_blocked-Leads, on_completed-Leads,
}
use gmiter.Isolation.{
  Rule, Checked, concurrency, count_of, check_pass, check, block_type_isolation, refuse,
}
use gmiter.Isolation.Verdicts.{demand, check_pass_lem}
use mathlib.Core.Option.{map as map_option}
use mathlib.Core.Path.{subst}

-- A call comes, with the result that its context has (nil as none), or one of those in flight ends.
pub data Move : Type 0 where
  enter : Call → (ℕ → ℕ) → Option (TokenResult Rule ℕ) → Move
  leave : Call → (ℕ → ℕ) → Move

abbrev pub block_type_of : TokenResult Rule ℕ → Option ℕ
block_type_of result = map_option (λ e. e.block_type) result.block_err

module _ (msg resource : Bytes) (rules : List Rule) where
  -- The callbacks of the statistics slot after the answer of the isolation slot: a nil result, or one that
  -- is not blocked, lets the call through.
  abbrev pub answered :
      Call → (ℕ → ℕ) → Nodes → ℕ → Option (Option (TokenResult Rule ℕ)) → Option (Nodes × ℕ)
  answered call clock ns n none = none
  answered call clock ns n (some none) =
      map_option (λ ns'. (ns', suc n)) (on_entry_passed call clock ns)
  answered call clock ns n (some (some result)) =
      if is_blocked result
      then map_option (λ ns'. (ns', n)) (on_entry_blocked call (block_type_of result) clock ns)
      else map_option (λ ns'. (ns', suc n)) (on_entry_passed call clock ns)

  unfoldable pub move : Move → Nodes → ℕ → Option (Nodes × ℕ)
  move (enter call clock result) ns n =
      answered call clock ns n (check msg resource rules ns.stat_node call.batch_count result)
  move (leave call clock) ns zero = some (ns, zero)
  move (leave call clock) ns (suc n) = map_option (λ ns'. (ns', n)) (on_completed call clock ns)

  -- The numbers in flight after each move.
  unfoldable pub in_flight : List Move → Nodes → ℕ → Option (List ℕ)
  in_flight [] ns n = some []
  in_flight (m ∷ moves) ns n = elim (move m ns n) [
    | none ↦ none
    | some (ns', n') ↦ map_option (λ numbers. n' ∷ numbers) (in_flight moves ns' n')
  ]

  abbrev pub IsUnblocked : Option (TokenResult Rule ℕ) → Type 0
  IsUnblocked none = Unit
  IsUnblocked (some result) = is_blocked result ≡ false

  -- Clock readings are between 0 and 2 ^ 63; a call that comes counts for at least one, and its context's
  -- result is not blocked yet.
  abbrev pub IsSane : Move → Type 0
  IsSane (enter call clock result) =
      IsClock clock × (0 < call.batch_count) × (call.batch_count < half32) × IsUnblocked result
  IsSane (leave call clock) = IsClock clock

  abbrev pub AllSane : List Move → Type 0
  AllSane [] = Unit
  AllSane (m ∷ moves) = IsSane m × AllSane moves

  abbrev pub AllWithin : ℕ → List ℕ → Type 0
  AllWithin limit [] = Unit
  AllWithin limit (n ∷ ns) = (n ≤ limit) × AllWithin limit ns

  module _ (i : ℕ) (r : Rule) (there : get_elem? rules i ≡ some r)
      (applies : r.metric_type ≡ concurrency) (small : r.threshold < half32)
      (named : is_empty resource ≡ false) where
    -- The number in flight is that of the node, and within the threshold.
    abbrev Bounded : Nodes → ℕ → Type 0
    Bounded ns n = (d : ℕ) × Counts n d ns × (n ≤ r.threshold)

    abbrev Moved : Option (Nodes × ℕ) → Type 0
    Moved o = (ns : Nodes) × (n : ℕ) × (o ≡ some (ns, n)) × Bounded ns n

    -- What the isolation slot gives where `check_pass` finds `checked`.
    check_eq :
        (o : Option BaseStatNode) (node : BaseStatNode) (batch_count : ℕ) (checked : Checked)
        (result : Option (TokenResult Rule ℕ))
        → o ≡ some node
        → check_pass rules (some node) batch_count ≡ some checked
        → check msg resource rules o batch_count result ≡ (
            if checked.passed
            then some result
            else some (some (refuse result msg checked.rule checked.snapshot)))
    unfolding check
    check_eq o node batch_count checked result held e = rw (named, held, e) refl

    -- A call that is not refused is recorded as passed, a call that is as blocked.
    answered-passes :
        (call : Call) (clock : ℕ → ℕ) (ns : Nodes) (n : ℕ) (result : Option (TokenResult Rule ℕ))
        → IsUnblocked result
        → answered call clock ns n (some result)
          ≡ map_option (λ ns'. (ns', suc n)) (on_entry_passed call clock ns)
    answered-passes call clock ns n none u = refl
    answered-passes call clock ns n (some result) u = rw u refl

    answered-refuse :
        (call : Call) (clock : ℕ → ℕ) (ns : Nodes) (n : ℕ) (result : Option (TokenResult Rule ℕ))
        (rule : Option Rule) (snapshot : ℕ)
        → answered call clock ns n (some (some (refuse result msg rule snapshot)))
          ≡ map_option
              (λ ns'. (ns', n))
              (on_entry_blocked call (some block_type_isolation) clock ns)
    unfolding is_blocked new_token_result_blocked_with_cause new_token_result_with
        new_block_error_with_cause reset_to_blocked_with_cause
    answered-refuse call clock ns n none rule snapshot = refl
    answered-refuse call clock ns n (some result) rule snapshot = refl

    enter-Moved :
        (call : Call) (clock : ℕ → ℕ) (result : Option (TokenResult Rule ℕ)) (ns : Nodes) (n : ℕ)
        → IsSane (enter call clock result)
        → Bounded ns n
        → Moved (move (enter call clock result) ns n)
    unfolding move
    enter-Moved call clock result ns n (times, positive, few, unblocked) (d, s, le) =
        let (checked, e, v) = check_pass_lem s.node call.batch_count rules in
        let eq = check_eq ns.stat_node s.node call.batch_count checked result s.held e in
        elim v [
          | inl (passed, all) ↦
              let (ns', e', s') = on_entry_passed-Leads call clock ns n d times s in
              let room : demand s.node call.batch_count ≤ r.threshold = all i r there applies in
              let count : count_of s.node ≡ n =
                rw (s.node_counts, lt→ltb n half32 (omega (arith, le, small))) refl in
              let next : next32 n ≡ suc n = omega (arith, le, small) in
              (
                ns',
                suc n,
                rw (eq, passed, answered-passes call clock ns n result unblocked)
                    (ap (map_option (λ x. (x, suc n))) e'),
                (
                  _,
                  subst (λ c. Counts c (if_inbound call next32 d) ns') next s',
                  omega (arith, count, room, positive, few, le, small),
                ),
              )
          | inr (refused, _, _, _, _, _) ↦
              let (ns', e', s') =
                on_entry_blocked-Leads call clock ns n d times s block_type_isolation in
              (
                ns',
                n,
                rw
                    (
                      eq,
                      refused,
                      answered-refuse call clock ns n result checked.rule checked.snapshot,
                    )
                    (ap (map_option (λ x. (x, n))) e'),
                (d, s', le),
              )
        ]

    move-Moved : (m : Move) (ns : Nodes) (n : ℕ) → IsSane m → Bounded ns n → Moved (move m ns n)
    unfolding move
    move-Moved (enter call clock result) ns n sane b = enter-Moved call clock result ns n sane b
    move-Moved (leave call clock) ns zero sane b = (ns, zero, refl, b)
    move-Moved (leave call clock) ns (suc n) times (d, s, le) =
        let (ns', e', s') = on_completed-Leads call clock ns (suc n) d times s in
        let less : previous32 (suc n) ≡ n = omega (arith, le, small) in
        (
          ns',
          n,
          ap (map_option (λ x. (x, n))) e',
          (_, subst (λ c. Counts c (if_inbound call previous32 d) ns') less s', omega (arith, le)),
        )

    in_flight-AllWithin :
        (moves : List Move) (ns : Nodes) (n : ℕ)
        → AllSane moves
        → Bounded ns n
        → (numbers : List ℕ) × (in_flight moves ns n ≡ some numbers) × AllWithin r.threshold numbers
    unfolding in_flight
    in_flight-AllWithin [] ns n sane b = ([], refl, tt)
    in_flight-AllWithin (m ∷ moves) ns n (sane, sanes) b =
        let (ns', n', e, b') = move-Moved m ns n sane b in
        let (numbers, e', within) = in_flight-AllWithin moves ns' n' sanes b' in
        (n' ∷ numbers, rw (e, in_flight) (ap (map_option (λ x. n' ∷ x)) e'), (b'.2, within))

    -- A resource with a name and a concurrency rule among its rules, whose threshold is below 2 ^ 31, on one
    -- goroutine from a new node: whatever calls come and end, the isolation and statistics slots return on
    -- each, and the number in flight never exceeds the threshold. The result that a context has when its call
    -- comes is nil or any one that is not blocked; a call counts for at least one and less than 2 ^ 31, the
    -- clock reads between 0 and 2 ^ 63, and the numbers of the configuration are positive and fit each other.
    pub node_in_flight :
        (total_count total_interval count interval now now' : ℕ) (node inbound : BaseStatNode)
        → 0 < total_count
        → 0 < total_interval
        → total_interval % total_count ≡ 0
        → total_interval < mod32
        → now < half64
        → now' < half64
        → new_base_stat_node total_count total_interval count interval now ≡ some node
        → new_base_stat_node total_count total_interval count interval now' ≡ some inbound
        → (moves : List Move) → AllSane moves
        → (numbers : List ℕ) × (in_flight moves
              (record { stat_node = some node; inbound_node = inbound })
              0
            ≡ some numbers)
          × AllWithin r.threshold numbers
    node_in_flight total_count total_interval count interval now now' node inbound positive long
          divides short early early' made made' moves sane =
        let (n, e, wf, c) =
          new_base_stat_node-Gives total_count total_interval count interval now positive long
            divides short early in
        let (n', e', wf', c') =
          new_base_stat_node-Gives total_count total_interval count interval now' positive long
            divides short early' in
        let same : n ≡ node = some_inj _ _ (sym e ∙ made) in
        let same' : n' ≡ inbound = some_inj _ _ (sym e' ∙ made') in
        in_flight-AllWithin moves _ 0 sane (
          0,
          record {
            node = node;
            held = refl;
            node_well_formed = subst (λ x. IsWellFormed x.arr.window) same wf;
            node_counts = subst (λ x. x.concurrency ≡ 0) same c;
            inbound_well_formed = subst (λ x. IsWellFormed x.arr.window) same' wf';
            inbound_counts = subst (λ x. x.concurrency ≡ 0) same' c';
          },
          omega arith,
        )
