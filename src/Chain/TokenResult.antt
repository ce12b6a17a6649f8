-- ===== src/Chain/TokenResult.antt =====
-- core/base/result.go and core/base/block_error.go: what a slot says of a call.
use gmiter.Prelude.{ℕ, Bool, true, false, Option, none, some, List, []}

abbrev pub GoString : Type 0
GoString = List ℕ

-- The result of a check or of a router; a gray resource is the text of its name. R is what stands for a
-- rule, V for a snapshot value; the `nil` of both, and of a pointer, is none.
pub record BlockError (R V : Type 0) : Type 0 where
  pub block_type : ℕ
  pub block_msg : GoString
  pub rule : Option R
  pub snapshot_value : Option V

pub data TokenResultStatus : Type 0 where
  pass : TokenResultStatus
  blocked : TokenResultStatus
  should_wait : TokenResultStatus

pub record TokenResult (R V : Type 0) : Type 0 where
  pub status : TokenResultStatus
  pub gray_res : Option GoString
  pub gray_address : List GoString
  pub link_pass : Bool
  pub gray_tag : GoString
  pub gray_match_res : GoString
  pub block_err : Option (BlockError R V)
  pub nanos_to_wait : ℕ

module _ {R V : Type 0} where
  -- `NewBlockError` without options: of the type BlockTypeUnknown, which is 0.
  unfoldable pub new_block_error : BlockError R V
  new_block_error = record { block_type = 0; block_msg = []; rule = none; snapshot_value = none }

  unfoldable pub new_block_error_with_cause : ℕ → GoString → Option R → Option V → BlockError R V
  new_block_error_with_cause block_type block_msg rule snapshot = record {
    block_type = block_type;
    block_msg = block_msg;
    rule = rule;
    snapshot_value = snapshot;
  }

  unfoldable pub new_token_result_with : TokenResultStatus → BlockError R V → TokenResult R V
  new_token_result_with status e = record {
    status = status;
    gray_res = none;
    gray_address = [];
    link_pass = false;
    gray_tag = [];
    gray_match_res = [];
    block_err = some e;
    nanos_to_wait = 0;
  }

  unfoldable pub new_token_result_pass : TokenResult R V
  new_token_result_pass = new_token_result_with pass new_block_error

  unfoldable pub new_token_result_blocked_with_cause :
      ℕ → GoString → Option R → Option V → TokenResult R V
  new_token_result_blocked_with_cause block_type block_msg rule snapshot =
      new_token_result_with blocked (new_block_error_with_cause block_type block_msg rule snapshot)

  unfoldable pub new_token_result_should_wait : ℕ → TokenResult R V
  new_token_result_should_wait wait = record (new_token_result_with should_wait new_block_error) {
    nanos_to_wait = wait;
  }

  unfoldable pub reset_to_pass : TokenResult R V → TokenResult R V
  reset_to_pass r = record r {
    status = pass;
    block_err = none;
    nanos_to_wait = 0;
    link_pass = false;
    gray_tag = [];
  }

  -- All four fields of the block error are set, whether there was one before or not.
  unfoldable pub reset_to_blocked_with_cause :
      TokenResult R V → ℕ → GoString → Option R → Option V → TokenResult R V
  reset_to_blocked_with_cause r block_type block_msg rule snapshot = record r {
    status = blocked;
    block_err = some (new_block_error_with_cause block_type block_msg rule snapshot);
    nanos_to_wait = 0;
  }

  unfoldable pub is_blocked : TokenResult R V → Bool
  is_blocked r = elim r.status [ blocked ↦ true | _ ↦ false ]
