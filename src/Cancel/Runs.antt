-- ===== src/Cancel/Runs.antt =====
-- Any sequence of the operations of go_backend/cancel.go.
use musi_flac.Prelude.{List, [], ◌∷◌, Bytes}
use musi_flac.Cancel.{
  CancelRegistry, init, request_cancel, request_cancel_active, reset_if_idle, release,
}
use musi_flac.Cancel.Invariant.{IsValid}
use musi_flac.Cancel.Kept.{
  init-IsValid, request_cancel-IsValid, release-IsValid, reset_if_idle-IsValid,
}
use musi_flac.Cancel.Sweeping.{request_cancel_active-IsValid}

-- A call of one of the operations.
pub data CancelOp : Type 0 where
  join cancel leave reset : Bytes → CancelOp
  cancel_active : CancelOp

unfoldable pub call : CancelOp → CancelRegistry → CancelRegistry
call (join id) r = (init id r).1
call (cancel id) r = request_cancel id r
call (leave id) r = release id r
call (reset id) r = reset_if_idle id r
call cancel_active r = (request_cancel_active r).1

unfoldable pub calls : List CancelOp → CancelRegistry → CancelRegistry
calls [] r = r
calls (op ∷ ops) r = calls ops (call op r)

pub call-IsValid : (op : CancelOp) (r : CancelRegistry) → IsValid r → IsValid (call op r)
unfolding call
call-IsValid (join id) r v = init-IsValid id r v
call-IsValid (cancel id) r v = request_cancel-IsValid id r v
call-IsValid (leave id) r v = release-IsValid id r v
call-IsValid (reset id) r v = reset_if_idle-IsValid id r v
call-IsValid cancel_active r v = request_cancel_active-IsValid r v

-- Any calls keep the invariant: an entry with a context is in use and its context is cancelled just
-- when the entry is, one without waits cancelled, and no two entries share a context.
pub calls-IsValid : (ops : List CancelOp) (r : CancelRegistry) → IsValid r → IsValid (calls ops r)
unfolding calls
calls-IsValid [] r v = v
calls-IsValid (op ∷ ops) r v = calls-IsValid ops (call op r) (call-IsValid op r v)
