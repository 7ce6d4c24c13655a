-- ===== src/Cancel.antt =====
-- The cancellation registry of go_backend/cancel.go. Contexts are shared with the requests that run:
-- the store of contexts has, for each context made so far, whether it is cancelled, and a context is
-- its place there. context.Background, which is never cancelled, is `none`.
pub mod Invariant
pub mod Kept
pub mod Sweeping
pub mod Runs
pub mod Automaton
pub mod Standing
pub mod Effect
pub mod Downloads
mod Tests
use musi_flac.Prelude.{
  ℕ, zero, suc, ◌+◌, ◌-◌, Bool, true, false, ◌&&◌, ◌||◌, List, [], ◌∷◌, ◌++◌, Option, none, some,
  leb, ◌==◌, if◌then◌else◌, length, get_or, set, Bytes, ◌=ₛ◌,
}
use musi_flac.Prelude.Dict.{lookup, insert, erase}
use musi_flac.Progress.State.{Registry}
use musi_flac.Progress.Items.{remove_item_progress}

-- `cancelEntry`: `ctx` and `cancel` are nil together, and `cancel` cancels `ctx`. `refs` is not
-- negative: what would make it so, in `release`, deletes the entry.
pub record CancelEntry : Type 0 where
  pub ctx : Option ℕ
  pub canceled : Bool
  pub refs : ℕ

pub record CancelRegistry : Type 0 where
  pub entries : List (Bytes × CancelEntry)
  pub contexts : List Bool

abbrev pub empty_registry : CancelRegistry
empty_registry = record { entries = []; contexts = [] }

-- The call of a cancel function, where there is one.
unfoldable pub cancel_context : Option ℕ → List Bool → List Bool
cancel_context none contexts = contexts
cancel_context (some c) contexts = set contexts c true

unfoldable pub is_done : Option ℕ → List Bool → Bool
is_done none contexts = false
is_done (some c) contexts = get_or contexts c false

-- What `init` makes of an entry that is there; its context is the next one where it has none.
unfoldable pub joined : ℕ → CancelEntry → CancelEntry
joined next e = elim e.ctx [
  | none ↦ record { ctx = some next; canceled = e.canceled; refs = e.refs + 1 }
  | some c ↦ record { ctx = some c; canceled = e.canceled; refs = e.refs + 1 }
]

-- A context made for an entry that waits cancelled is cancelled at once.
unfoldable pub made : CancelEntry → List Bool → List Bool
made e contexts = elim e.ctx [ none ↦ contexts ++ (e.canceled ∷ []) | some c ↦ contexts ]

abbrev pub fresh_entry : ℕ → CancelEntry
fresh_entry next = record { ctx = some next; canceled = false; refs = 1 }

unfoldable pub init : Bytes → CancelRegistry → Option ℕ × CancelRegistry
init id r =
    let next = length r.contexts in
    if id =ₛ [] then (none, r) else elim (lookup id r.entries) [
      | some e ↦ (
        (joined next e).ctx,
        record { entries = insert id (joined next e) r.entries; contexts = made e r.contexts },
      )
      | none ↦ (
        some next,
        record {
          entries = insert id (fresh_entry next) r.entries;
          contexts = r.contexts ++ (false ∷ []);
        },
      )
    ]

-- `context`
unfoldable pub context_of : Bytes → CancelRegistry → Option ℕ
context_of id r =
    if id =ₛ [] then none else elim (lookup id r.entries) [ none ↦ none | some e ↦ e.ctx ]

unfoldable pub request_cancel : Bytes → CancelRegistry → CancelRegistry
request_cancel id r = if id =ₛ [] then r else elim (lookup id r.entries) [
  | some e ↦ record {
    entries = insert id (record e { canceled = true }) r.entries;
    contexts = cancel_context e.ctx r.contexts;
  }
  | none ↦ record r {
    entries = insert id (record { ctx = none; canceled = true; refs = 0 }) r.entries;
  }
]

-- The loop of `requestCancelActive`: the entries after it, the contexts, and the ids it returns.
pub record Sweep : Type 0 where
  pub entries : List (Bytes × CancelEntry)
  pub contexts : List Bool
  pub ids : List Bytes

unfoldable pub sweep : List (Bytes × CancelEntry) → List Bool → Sweep
sweep [] contexts = record { entries = []; contexts = contexts; ids = [] }
sweep ((id, e) ∷ m) contexts =
    let idle = e.refs == 0 in
    let s = sweep m (if idle then contexts else cancel_context e.ctx contexts) in
    if idle
    then record s { entries = (id, e) ∷ s.entries }
    else record s { entries = (id, record e { canceled = true }) ∷ s.entries; ids = id ∷ s.ids }

unfoldable pub request_cancel_active : CancelRegistry → List Bytes × CancelRegistry
request_cancel_active r =
    let s = sweep r.entries r.contexts in
    (s.ids, record { entries = s.entries; contexts = s.contexts })

unfoldable pub is_cancelled : Bytes → CancelRegistry → Bool
is_cancelled id r =
    if id =ₛ [] then false else elim (lookup id r.entries) [ none ↦ false | some e ↦ e.canceled ]

unfoldable pub reset_if_idle : Bytes → CancelRegistry → CancelRegistry
reset_if_idle id r = if id =ₛ [] then r else elim (lookup id r.entries) [
  | none ↦ r
  | some e ↦ if e.refs == 0 then record r { entries = erase id r.entries } else r
]

unfoldable pub release : Bytes → CancelRegistry → CancelRegistry
release id r = if id =ₛ [] then r else elim (lookup id r.entries) [
  | none ↦ r
  | some e ↦
      if leb e.refs 1
      then record r { entries = erase id r.entries }
      else record r { entries = insert id (record e { refs = e.refs - 1 }) r.entries }
]

-- `cancelDownload` and `cancelAllActiveDownloads`, on the downloads' cancellations and the progress
-- registry.
module _ {F : Type 0} where
  unfoldable pub cancel_download : Bytes → CancelRegistry → Registry F → CancelRegistry × Registry F
  cancel_download id r progress =
      if id =ₛ [] then (r, progress) else (request_cancel id r, remove_item_progress id progress)

  unfoldable pub remove_all : List Bytes → Registry F → Registry F
  remove_all [] progress = progress
  remove_all (id ∷ ids) progress = remove_all ids (remove_item_progress id progress)

  unfoldable pub cancel_all_active_downloads :
      CancelRegistry → Registry F → List Bytes × CancelRegistry × Registry F
  cancel_all_active_downloads r progress =
      let (ids, r') = request_cancel_active r in (ids, r', remove_all ids progress)
