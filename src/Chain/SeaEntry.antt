-- ===== src/Chain/SeaEntry.antt =====
-- core/base/entry.go, with `Reset` of core/base/context.go: the entry of a call and its exit. The entry's
-- context is passed beside it, nil as none; what `Reset` does to the rest of the context is a parameter,
-- and so is what a handler reads of the entry, which is part of the handler.
pub mod Exit
use gmiter.Prelude.{◌+◌, Bool, true, Option, none, some, List, [], ◌∷◌, if◌then◌else◌}
use gmiter.Chain.TokenResult.{GoString, new_token_result_pass, reset_to_pass}
use gmiter.Chain.Slots.{EntryContext, Outcome, done, panicked, Step, SlotChain, then_, write}
use gmiter.Chain.Slots

pub record SeaEntry (R V D : Type 0) : Type 0 where
  -- A handler's error is logged.
  pub exit_handlers : List (Step R V D (Option GoString))
  -- Whether `exitCtl` has run.
  pub exited : Bool
  pub sc : Option (SlotChain R V D)

module _ {R V D : Type 0} where
  -- The new handler is the first.
  unfoldable pub when_exit : SeaEntry R V D → Step R V D (Option GoString) → SeaEntry R V D
  when_exit e handler = record e { exit_handlers = handler ∷ e.exit_handlers }

  -- With no error the context stays as it is.
  unfoldable pub set_error : Option GoString → EntryContext R V D → EntryContext R V D
  set_error none ctx = ctx
  set_error (some err) ctx = record ctx { error = some err }

  unfoldable pub run_handlers : List (Step R V D (Option GoString)) → Step R V D Unit
  run_handlers [] ctx = (ctx, done tt)
  run_handlers (h ∷ l) ctx = then_ (h ctx) (λ logged. run_handlers l)

  -- `ctx.RuleCheckResult` of `Reset`: a new result for nil, else the old one made to pass.
  unfoldable pub reset_result : EntryContext R V D → EntryContext R V D
  reset_result ctx = elim ctx.rule_check_result [
    | some p ↦ write p reset_to_pass ctx
    | none ↦
        record (write ctx.results.next (λ t. new_token_result_pass)
          (record ctx { results = record ctx.results { next = ctx.results.next + 1 } })) {
            rule_check_result = some ctx.results.next;
          }
  ]

  -- A nil Input or Output is a panic before the result is reset.
  unfoldable pub reset_from : D × Outcome Unit → Step R V D Unit
  reset_from (d, panicked e) ctx = (record ctx { error = none; data_ = d }, panicked e)
  reset_from (d, done u) ctx = (reset_result (record ctx { error = none; data_ = d }), done tt)

  unfoldable pub reset : (D → D × Outcome Unit) → Step R V D Unit
  reset reset_data ctx = reset_from (reset_data ctx.data_) ctx

  -- The function that runs once: the handlers and the chain's exit, up to a panic, which is logged; then
  -- the context is reset, for the pool. A panic of the reset goes up.
  unfoldable pub exit_once : (D → D × Outcome Unit) → SeaEntry R V D → Step R V D Unit
  exit_once reset_data e ctx = elim e.sc [
    | none ↦ ((run_handlers e.exit_handlers ctx).0, done tt)
    | some sc ↦ reset reset_data (then_ (run_handlers e.exit_handlers ctx) (λ u. Slots.exit sc)).0
  ]

  -- The entry that has exited, with what `exit_once` gives.
  abbrev pub left_by :
      SeaEntry R V D
      → EntryContext R V D × Outcome Unit
      → SeaEntry R V D × Option (EntryContext R V D) × Outcome Unit
  left_by e (ctx, o) = (record e { exited = true }, some ctx, o)

  unfoldable pub exit :
      (D → D × Outcome Unit)
      → SeaEntry R V D
      → Option (EntryContext R V D)
      → Option GoString
      → SeaEntry R V D × Option (EntryContext R V D) × Outcome Unit
  exit reset_data e none err = (e, none, done tt)
  exit reset_data e (some ctx) err =
      if e.exited
      then (e, some (set_error err ctx), done tt)
      else left_by e (exit_once reset_data e (set_error err ctx))
