-- ===== src/Cancel/Effect.antt =====
-- What the operations of go_backend/cancel.go promise their callers.
use musi_flac.Prelude.{
  ℕ, ◌≡◌, inl, inr, Bool, true, false, ◌&&◌, ◌||◌, [], none, some, Option-cases, arith, length,
  Bytes, ◌=ₛ◌, =ₛ_iff,
}
use musi_flac.Prelude.Dict.{lookup, lookup-insert}
use musi_flac.Progress.Delta.{is_listed}
use musi_flac.Cancel.{
  CancelEntry, CancelRegistry, is_done, joined, made, fresh_entry, init, context_of, request_cancel,
  sweep, request_cancel_active, is_cancelled,
}
use musi_flac.Cancel.Invariant.{IsValid, get_or-append_end}
use musi_flac.Cancel.Kept.{cancel_context-hit, cancel_context-miss}
use musi_flac.Cancel.Sweeping.{in_use, swept, swept_value, lookup-sweep, sweep-hit, is_listed-sweep}

-- What `init` promises.
pub record IsJoined (id : Bytes) (r : CancelRegistry) : Type 0 where
  pub done : is_done (init id r).0 (init id r).1.contexts ≡ is_cancelled id r
  pub same : is_cancelled id (init id r).1 ≡ is_cancelled id r
  pub current : context_of id (init id r).1 ≡ (init id r).0
  pub shared : (c : ℕ) → context_of id r ≡ some c → (init id r).0 ≡ some c

-- On a valid registry, for an id that is not empty, `init` gives a context that is cancelled just
-- when the id was cancelled before, so a cancellation that came before the request started reaches
-- it. It does not change whether the id is cancelled, the context is the one that the id has
-- afterwards, and it is the one that earlier users of the id have, if there are any.
pub init-IsJoined :
    (id : Bytes) (r : CancelRegistry) → (id =ₛ []) ≡ false → IsValid r → IsJoined id r
unfolding init is_done is_cancelled context_of joined made
init-IsJoined id r named v = elim (Option-cases (lookup id r.entries)) [
  | inl missing ↦
      let e = fresh_entry (length r.contexts) in
      record {
        done = ground (arith, named, missing, get_or-append_end r.contexts false);
        same = ground (arith, named, missing, lookup-insert id id e r.entries, =ₛ_iff id id);
        current = ground (arith, named, missing, lookup-insert id id e r.entries, =ₛ_iff id id);
        shared = λ c h. ground (arith, named, missing, h);
      }
  | inr (e, here) ↦
      let f = joined (length r.contexts) e in
      record {
        done = elim (Option-cases e.ctx) [
          | inl no_ctx ↦
              ground (arith, named, here, no_ctx, get_or-append_end r.contexts e.canceled)
          | inr (c, ctx) ↦ ground (arith, named, here, ctx, v.flag id e c here ctx)
        ];
        same = ground (arith, named, here, lookup-insert id id f r.entries, =ₛ_iff id id);
        current = ground (arith, named, here, lookup-insert id id f r.entries, =ₛ_iff id id);
        shared = λ c h. ground (arith, named, here, h);
      }
]

-- What a cancellation does to an id: `hit` is whether the id is meant, `before` and `after` are the
-- registry before and after.
pub record IsCut (id : Bytes) (hit : Bool) (before after : CancelRegistry) : Type 0 where
  pub flagged : is_cancelled id after ≡ (hit || is_cancelled id before)
  pub stopped :
      is_done (context_of id before) after.contexts
      ≡ (hit && in_use (lookup id before.entries) || is_done (context_of id before) before.contexts)
  pub kept : context_of id after ≡ context_of id before

-- On a valid registry, for ids that are not empty, `requestCancel` marks the id, and cancels the
-- context of the requests that run under it; another id stays as it was, and so does the context of
-- its requests.
pub request_cancel-IsCut :
    (id j : Bytes) (r : CancelRegistry)
    → (id =ₛ []) ≡ false
    → (j =ₛ []) ≡ false
    → IsValid r
    → IsCut j (id =ₛ j) r (request_cancel id r)
unfolding request_cancel is_done is_cancelled context_of in_use
request_cancel-IsCut id j r named named' v = elim (Option-cases (lookup id r.entries)) [
  | inl missing ↦
      let w : CancelEntry = record { ctx = none; canceled = true; refs = 0 } in
      record {
        flagged = ground (arith, named, named', missing, lookup-insert id j w r.entries);
        stopped = ground (arith, named, named', missing, =ₛ_iff id j);
        kept = ground (arith, named, named', missing, lookup-insert id j w r.entries, =ₛ_iff id j);
      }
  | inr (e, here) ↦
      let w = record e { canceled = true } in
      record {
        flagged = ground (arith, named, named', here, lookup-insert id j w r.entries, =ₛ_iff id j);
        stopped = elim (Option-cases (lookup j r.entries)) [
          | inl absent ↦ ground (arith, named, named', here, absent, =ₛ_iff id j)
          | inr (f, there) ↦ elim (Option-cases f.ctx) [
            | inl no_ctx ↦
                ground (arith, named, named', here, there, no_ctx, (v.waiting j f there no_ctx).0)
            | inr (c, ctx) ↦ ground (
              arith,
              named,
              named',
              here,
              there,
              ctx,
              v.live j f c there ctx,
              v.ctx_in j f c there ctx,
              v.own id j e f c here there,
              =ₛ_iff id j,
              cancel_context-hit e.ctx r.contexts c,
              cancel_context-miss e.ctx r.contexts c,
            )
          ]
        ];
        kept = ground (arith, named, named', here, lookup-insert id j w r.entries, =ₛ_iff id j);
      }
]

-- On a valid registry `requestCancelActive` returns the ids that requests run under, marks just
-- those, and cancels their contexts. An id that only waits, or is not there, is left as it was.
pub request_cancel_active-IsCut :
    (id : Bytes) (r : CancelRegistry)
    → (id =ₛ []) ≡ false
    → IsValid r
    → let (ids, r') = request_cancel_active r in
      (is_listed id ids ≡ in_use (lookup id r.entries)) × IsCut id (is_listed id ids) r r'
unfolding request_cancel_active is_done is_cancelled context_of in_use swept_value swept
request_cancel_active-IsCut id r named v =
    let s = sweep r.entries r.contexts in
    let listed = is_listed-sweep id r.entries r.contexts v.dict in
    elim (Option-cases (lookup id r.entries)) [
      | inl missing ↦ (
        listed,
        record {
          flagged = ground (arith, named, missing, listed, lookup-sweep id r.entries r.contexts);
          stopped = ground (arith, named, missing, listed);
          kept = ground (arith, named, missing, lookup-sweep id r.entries r.contexts);
        },
      )
      | inr (e, here) ↦ (
        listed,
        record {
          flagged = ground (arith, named, here, listed, lookup-sweep id r.entries r.contexts);
          stopped = elim (Option-cases e.ctx) [
            | inl no_ctx ↦
                ground (arith, named, here, no_ctx, listed, (v.waiting id e here no_ctx).0)
            | inr (c, ctx) ↦ ground (
              arith,
              named,
              here,
              ctx,
              listed,
              v.live id e c here ctx,
              sweep-hit id e r.entries r.contexts c here ctx (v.live id e c here ctx)
                  (v.ctx_in id e c here ctx),
            )
          ];
          kept = ground (arith, named, here, lookup-sweep id r.entries r.contexts);
        },
      )
    ]
