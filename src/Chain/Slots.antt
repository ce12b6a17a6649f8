-- ===== src/Chain/Slots.antt =====
-- core/base/slot_chain.go. A slot is its order and what it does to the context; a slot may panic, with the
-- context as it left it. The context is its error, its rule check result, and the rest of it, of the type D.
-- A result is a pointer into `results`, which all the results of the call stand in, so that a slot which
-- writes through a pointer is seen through every other; the nil pointer is none. A block error
-- is copied where the code shares its pointer. `sort.SliceStable` is a parameter. The pool of contexts
-- and the logging are not modelled.
pub mod Order
pub mod Entry
use gmiter.Prelude.{ℕ, Bool, false, Option, none, some, List, [], ◌∷◌, ◌++◌, ◌==◌, if◌then◌else◌}
use gmiter.Chain.TokenResult.{
  GoString, BlockError, TokenResult, TokenResultStatus, pass, blocked, reset_to_pass, is_blocked,
}

abbrev pub Ref : Type 0
Ref = ℕ

-- The results, and the first pointer that is free.
pub record Results (R V : Type 0) : Type 0 where
  pub next : Ref
  pub object : Ref → TokenResult R V

pub record EntryContext (R V D : Type 0) : Type 0 where
  pub error : Option GoString
  pub rule_check_result : Option Ref
  pub results : Results R V
  pub data_ : D

-- What a slot's method gives back, or the panic that it ended in.
pub data Outcome (A : Type 0) : Type 0 where
  done : A → Outcome A
  panicked : GoString → Outcome A

-- A computation on the context.
abbrev pub Step : (R V D A : Type 0) → Type 0
Step R V D A = EntryContext R V D → EntryContext R V D × Outcome A

pub record StatPrepareSlot (R V D : Type 0) : Type 0 where
  pub order : ℕ
  pub prepare : Step R V D Unit

pub record RuleCheckSlot (R V D : Type 0) : Type 0 where
  pub order : ℕ
  pub check : Step R V D (Option Ref)

pub record RouterSlot (R V D : Type 0) : Type 0 where
  pub order : ℕ
  pub router : Step R V D (Option Ref)

pub record StatSlot (R V D : Type 0) : Type 0 where
  pub order : ℕ
  pub on_entry_passed : Step R V D Unit
  pub on_entry_blocked : Option (BlockError R V) → Step R V D Unit
  pub on_completed : Step R V D Unit

pub record SlotChain (R V D : Type 0) : Type 0 where
  pub stat_pres : List (StatPrepareSlot R V D)
  pub rule_checks : List (RuleCheckSlot R V D)
  pub stats : List (StatSlot R V D)
  pub routers : List (RouterSlot R V D)

-- The panic of a nil pointer; its text is not modelled.
abbrev pub nil_dereference : GoString
nil_dereference = []

module _ {R V : Type 0} where
  abbrev pub set_blocked : TokenResult R V → TokenResult R V → TokenResult R V
  set_blocked r t = record t { block_err = r.block_err; status = blocked }

  abbrev pub set_gray : TokenResult R V → TokenResult R V → TokenResult R V
  set_gray r t = record t {
    gray_res = r.gray_res;
    gray_tag = r.gray_tag;
    link_pass = r.link_pass;
    gray_address = r.gray_address;
    gray_match_res = r.gray_match_res;
  }

module _ {R V D : Type 0} where
  unfoldable pub new_slot_chain : SlotChain R V D
  new_slot_chain = record { stat_pres = []; rule_checks = []; stats = []; routers = [] }

  -- `slice_stable` sorts by the order, like `sort.SliceStable` with the code's comparison.
  module _ (slice_stable : (A : Type 0) → (A → ℕ) → List A → List A) where
    unfoldable pub add_stat_prepare_slot : SlotChain R V D → StatPrepareSlot R V D → SlotChain R V D
    add_stat_prepare_slot sc s = record sc {
      stat_pres = slice_stable _ (λ x. x.order) (sc.stat_pres ++ s ∷ []);
    }

    -- `Initial`, which is about the slot's own state, is not modelled.
    unfoldable pub add_rule_check_slot : SlotChain R V D → RuleCheckSlot R V D → SlotChain R V D
    add_rule_check_slot sc s = record sc {
      rule_checks = slice_stable _ (λ x. x.order) (sc.rule_checks ++ s ∷ []);
    }

    unfoldable pub add_stat_slot : SlotChain R V D → StatSlot R V D → SlotChain R V D
    add_stat_slot sc s = record sc { stats = slice_stable _ (λ x. x.order) (sc.stats ++ s ∷ []) }

    unfoldable pub add_router_slot : SlotChain R V D → RouterSlot R V D → SlotChain R V D
    add_router_slot sc s = record sc {
      routers = slice_stable _ (λ x. x.order) (sc.routers ++ s ∷ []);
    }

  -- After a step that is done, the next; a panic ends the sequence.
  unfoldable pub then_ :
      {A B : Type 0}
      → EntryContext R V D × Outcome A
      → (A → Step R V D B)
      → EntryContext R V D × Outcome B
  then_ (ctx, done a) k = k a ctx
  then_ (ctx, panicked e) k = (ctx, panicked e)

  unfoldable pub prepare_all : List (StatPrepareSlot R V D) → Step R V D Unit
  prepare_all [] ctx = (ctx, done tt)
  prepare_all (s ∷ l) ctx = then_ (s.prepare ctx) (λ u. prepare_all l)

  -- `p.IsBlocked()`.
  abbrev pub blocked_at : EntryContext R V D → Ref → Bool
  blocked_at ctx p = is_blocked (ctx.results.object p)

  -- A write to the fields of a result.
  unfoldable pub write :
      Ref → (TokenResult R V → TokenResult R V) → EntryContext R V D → EntryContext R V D
  write p f ctx = record ctx {
    results = record ctx.results {
      object = λ q. if q == p then f (ctx.results.object p) else ctx.results.object q;
    };
  }

  -- A write through `ctx.RuleCheckResult`.
  unfoldable pub write_result : (TokenResult R V → TokenResult R V) → Step R V D Unit
  write_result f ctx = elim ctx.rule_check_result [
    | none ↦ (ctx, panicked nil_dereference)
    | some p ↦ (write p f ctx, done tt)
  ]

  -- A check's result: a block ends the loop, anything else goes on with the rest.
  unfoldable pub checked : Step R V D (Option Ref) → Option Ref → Step R V D (Option Ref)
  checked rest none ctx = rest ctx
  checked rest (some p) ctx = if blocked_at ctx p then (ctx, done (some p)) else rest ctx

  -- The result of the first slot that blocks, if one does.
  unfoldable pub check_all : List (RuleCheckSlot R V D) → Step R V D (Option Ref)
  check_all [] ctx = (ctx, done none)
  check_all (s ∷ l) ctx = then_ (s.check ctx) (checked (check_all l))

  -- The context's result after the checks.
  unfoldable pub conclude : Option Ref → Step R V D Unit
  conclude none ctx = write_result reset_to_pass ctx
  conclude (some p) ctx = (record ctx { rule_check_result = some p }, done tt)

  -- A router's result: a block is written down and ends the loop, another gray resource is written down.
  unfoldable pub routed : Step R V D Unit → Option Ref → Step R V D Unit
  routed rest none ctx = rest ctx
  routed rest (some p) ctx =
      if blocked_at ctx p
      then write_result (set_blocked (ctx.results.object p)) ctx
      else then_ (write_result (set_gray (ctx.results.object p)) ctx) (λ u. rest)

  unfoldable pub route_all : List (RouterSlot R V D) → Step R V D Unit
  route_all [] ctx = (ctx, done tt)
  route_all (s ∷ l) ctx = then_ (s.router ctx) (routed (route_all l))

  -- What one statistics slot is told of the result `ruleCheckRet`.
  unfoldable pub tell : StatSlot R V D → Option Ref → Step R V D Unit
  tell s none ctx = (ctx, panicked nil_dereference)
  tell s (some p) ctx =
      if blocked_at ctx p
      then s.on_entry_blocked (ctx.results.object p).block_err ctx
      else s.on_entry_passed ctx

  unfoldable pub stat_all : List (StatSlot R V D) → (rule_check_ret : Option Ref) → Step R V D Unit
  stat_all [] ret ctx = (ctx, done tt)
  stat_all (s ∷ l) ret ctx = then_ (tell s ret ctx) (λ u. stat_all l ret)

  -- The statistics, told of the result that the context has now; `Entry` returns this pointer.
  unfoldable pub finish : List (StatSlot R V D) → Step R V D (Option Ref)
  finish l ctx =
      then_ (stat_all l ctx.rule_check_result ctx) (λ u ctx'. (ctx', done ctx.rule_check_result))

  -- `Entry` up to its deferred function.
  unfoldable pub entry_body : SlotChain R V D → Step R V D (Option Ref)
  entry_body sc ctx = then_ (prepare_all sc.stat_pres ctx) (λ u ctx1.
      then_ (check_all sc.rule_checks ctx1) (λ ret ctx2.
        then_ (conclude ret ctx2)
          (λ u ctx3. then_ (route_all sc.routers ctx3) (λ u. finish sc.stats))))

  -- The deferred function: a panic becomes the context's error, and the result is nil.
  unfoldable pub recovered :
      EntryContext R V D × Outcome (Option Ref) → EntryContext R V D × Option Ref
  recovered (ctx, done r) = (ctx, r)
  recovered (ctx, panicked e) = (record ctx { error = some e }, none)

  unfoldable pub entry : SlotChain R V D → EntryContext R V D → EntryContext R V D × Option Ref
  entry sc ctx = recovered (entry_body sc ctx)

  unfoldable pub complete_all : List (StatSlot R V D) → Step R V D Unit
  complete_all [] ctx = (ctx, done tt)
  complete_all (s ∷ l) ctx = then_ (s.on_completed ctx) (λ u. complete_all l)

  -- `IsBlocked` of the context.
  abbrev pub is_context_blocked : EntryContext R V D → Bool
  is_context_blocked ctx = elim ctx.rule_check_result [ none ↦ false | some p ↦ blocked_at ctx p ]

  -- `exit` of a context with an entry: a blocked call is not completed.
  unfoldable pub exit : SlotChain R V D → Step R V D Unit
  exit sc ctx = if is_context_blocked ctx then (ctx, done tt) else complete_all sc.stats ctx
