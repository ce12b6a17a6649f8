-- ===== src/Chain/Tests.antt =====
-- core/base/slot_chain.go and core/base/entry.go on small chains.
mod InsertionSort
use gmiter.Prelude.{ℕ, zero, suc, ◌+◌, ◌≡◌, refl, true, false, Option, none, some, List, [], ◌∷◌}
use gmiter.Chain.TokenResult.{
  GoString, TokenResult, new_token_result_pass, new_token_result_blocked_with_cause,
  new_token_result_with, new_block_error, new_block_error_with_cause, is_blocked,
}
use gmiter.Chain.Slots.{
  Ref, EntryContext, done, panicked, StatPrepareSlot, RuleCheckSlot, RouterSlot, StatSlot,
  SlotChain, new_slot_chain, then_, checked, prepare_all, check_all, exit,
}
use gmiter.Chain.Slots.Order.{
  Added, stat_prepare, rule_check, stat, router, stat_prepares, rule_checks_of, stats_of,
  routers_of, add_all, IsOrdered, add_all-new_slot_chain,
}
use gmiter.Chain.SeaEntry
use gmiter.Chain.SeaEntry.{SeaEntry, set_error, exit_once}
use gmiter.Chain.SeaEntry.Exit.{exit-exit}
use gmiter.Chain.Tests.InsertionSort.{insertion_sort, insertion_sort-SortsStably}

abbrev blocked_result : TokenResult ℕ ℕ
blocked_result = new_token_result_blocked_with_cause 1 [] none none

-- The context's result at 0, and a block at any other pointer.
abbrev results : Ref → TokenResult ℕ ℕ
results zero = new_token_result_pass
results (suc p) = blocked_result

abbrev ctx0 : EntryContext ℕ ℕ ℕ
ctx0 = record {
  error = none;
  rule_check_result = some 0;
  results = record { next = 2; object = results };
  data_ = 0;
}

abbrev silent : RuleCheckSlot ℕ ℕ ℕ
silent = record { order = 1; check = λ c. (c, done none) }

abbrev blocking : RuleCheckSlot ℕ ℕ ℕ
blocking = record { order = 2; check = λ c. (c, done (some 1)) }

abbrev panicking : RuleCheckSlot ℕ ℕ ℕ
panicking = record { order = 3; check = λ c. (c, panicked []) }

-- Counts what it is told of.
abbrev counting : StatSlot ℕ ℕ ℕ
counting = record {
  order = 1;
  on_entry_passed = λ c. (record c { data_ = c.data_ + 1 }, done tt);
  on_entry_blocked = λ e c. (record c { data_ = c.data_ + 100 }, done tt);
  on_completed = λ c. (record c { data_ = c.data_ + 10000 }, done tt);
}

abbrev routing : RouterSlot ℕ ℕ ℕ
routing = record { order = 1; router = λ c. (c, done none) }

abbrev preparing : StatPrepareSlot ℕ ℕ ℕ
preparing = record { order = 1; prepare = λ c. (c, done tt) }

abbrev chain : SlotChain ℕ ℕ ℕ
chain = record {
  stat_pres = [];
  rule_checks = silent ∷ blocking ∷ panicking ∷ [];
  stats = counting ∷ [];
  routers = routing ∷ [];
}

abbrev additions : List (Added ℕ ℕ ℕ)
additions =
    rule_check panicking
    ∷ stat counting
    ∷ rule_check silent
    ∷ router routing
    ∷ rule_check blocking
    ∷ stat_prepare preparing
    ∷ []

add_all-new_slot_chain_example :
    IsOrdered insertion_sort
      (add_all insertion_sort new_slot_chain additions)
      (stat_prepares additions)
      (rule_checks_of additions)
      (stats_of additions)
      (routers_of additions)
add_all-new_slot_chain_example =
    add_all-new_slot_chain insertion_sort insertion_sort-SortsStably additions

program : Unit {0}
unfolding then_ checked prepare_all check_all is_blocked new_token_result_blocked_with_cause
    new_token_result_with new_block_error_with_cause new_token_result_pass new_block_error
program = tt

-- One handler, which panics.
abbrev sea_entry : SeaEntry ℕ ℕ ℕ
sea_entry = record { exit_handlers = (λ c. (c, panicked [])) ∷ []; exited = false; sc = some chain }

exit-exit_example :
    SeaEntry.exit
      (λ d. (0, done tt))
      (SeaEntry.exit (λ d. (0, done tt)) sea_entry (some ctx0) none).0
      (SeaEntry.exit (λ d. (0, done tt)) sea_entry (some ctx0) none).1
      (some (7 ∷ []))
    ≡ (
      (SeaEntry.exit (λ d. (0, done tt)) sea_entry (some ctx0) none).0,
      some (
          set_error
            (some (7 ∷ []))
            (exit_once (λ d. (0, done tt)) sea_entry (set_error none ctx0)).0),
      done tt,
    )
exit-exit_example = exit-exit (λ d. (0, done tt)) sea_entry ctx0 refl none (some (7 ∷ []))
