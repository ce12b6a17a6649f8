-- ===== src/Chain/SeaEntry/Exit.antt =====
-- The exit of an entry of core/base/entry.go, once and again.
use gmiter.Prelude.{◌≡◌, refl, false, Option, some}
use gmiter.Chain.TokenResult.{GoString}
use gmiter.Chain.Slots.{EntryContext, Outcome, done}
use gmiter.Chain.SeaEntry.{SeaEntry, set_error, exit_once, exit}

module _ {R V D : Type 0} (reset_data : D → D × Outcome Unit) (e : SeaEntry R V D)
    (ctx : EntryContext R V D) (fresh : e.exited ≡ false) where
  -- An entry exits once: a later exit runs neither a handler nor the chain, and resets nothing, it only
  -- takes an error.
  pub exit-exit :
      (err err' : Option GoString)
      → exit reset_data
          (exit reset_data e (some ctx) err).0
          (exit reset_data e (some ctx) err).1
          err'
        ≡ (
          (exit reset_data e (some ctx) err).0,
          some (set_error err' (exit_once reset_data e (set_error err ctx)).0),
          done tt,
        )
  unfolding exit
  exit-exit err err' = rw fresh refl
