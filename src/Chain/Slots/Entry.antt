-- ===== src/Chain/Slots/Entry.antt =====
-- How a call that a check refuses goes through the chain of core/base/slot_chain.go, and out of it.
use gmiter.Prelude.{◌≡◌, ◌⊎◌, true, Option, none, some, List, [], ◌∷◌}
use gmiter.Chain.TokenResult.{TokenResult, BlockError, GoString}
use gmiter.Chain.Slots.{
  Ref, EntryContext, Outcome, done, panicked, Step, RouterSlot, StatSlot, blocked_at,
}

abbrev Answers : Ref → Outcome (Option Ref) → Type 0
Answers p (done r) = r ≡ some p
Answers p (panicked e) = Unit

module _ {R V D : Type 0} where
  -- A step that does not replace the context's rule check result, and lets no blocked result pass.
  abbrev pub Keeps : {A : Type 0} → Step R V D A → Type 0
  Keeps step =
      (ctx : EntryContext R V D)
      → ((step ctx).0.rule_check_result ≡ ctx.rule_check_result)
        × ((q : Ref) → blocked_at ctx q ≡ true → blocked_at (step ctx).0 q ≡ true)

  abbrev pub RoutersKeep : List (RouterSlot R V D) → Type 0
  RoutersKeep [] = Unit
  RoutersKeep (s ∷ l) = Keeps s.router × RoutersKeep l

  abbrev pub StatsKeep : List (StatSlot R V D) → Type 0
  StatsKeep [] = Unit
  StatsKeep (s ∷ l) =
      Keeps s.on_entry_passed
      × ((e : Option (BlockError R V)) → Keeps (s.on_entry_blocked e))
      × StatsKeep l

  module _ (p : Ref) where
    -- The context's result is the one at `p`, and blocked.
    abbrev IsBlockedBy : EntryContext R V D → Type 0
    IsBlockedBy ctx = (ctx.rule_check_result ≡ some p) × (blocked_at ctx p ≡ true)

    abbrev Stays : {A : Type 0} → Step R V D A → Type 0
    Stays step = (ctx : EntryContext R V D) → IsBlockedBy ctx → IsBlockedBy (step ctx).0

    -- The call is refused by the result at `p`: `Entry` gives that pointer, unless a slot panicked.
    abbrev IsRefused : EntryContext R V D × Outcome (Option Ref) → Type 0
    IsRefused (c, o) = IsBlockedBy c × Answers p o

    -- What `Entry` gives, and the context that it leaves.
    abbrev pub IsAnswer : EntryContext R V D × Option Ref → Type 0
    IsAnswer (c, answer) =
        ((answer ≡ some p) ⊎ (answer ≡ none) × (e : GoString) × (c.error ≡ some e))
        × (c.rule_check_result ≡ some p)
        × (blocked_at c p ≡ true)
