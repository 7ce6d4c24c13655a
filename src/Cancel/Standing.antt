-- ===== src/Cancel/Standing.antt =====
-- Each id stands in the registry of go_backend/cancel.go as its automaton says.
use musi_flac.Prelude.{
  subst, length, ◌++◌, ◌-◌, ◌≡◌, refl, sym, ap, ◌∙◌, inl, inr, Bool, Bool-cases, true, false, ◌&&◌,
  List, [], ◌∷◌, Option, none, some, Option-cases, arith, if◌then◌else◌, Bytes, ◌=ₛ◌, =ₛ_iff,
}
use musi_flac.Prelude.Dict.{lookup, insert, erase, lookup-insert, lookup-erase}
use musi_flac.Cancel.{
  CancelEntry, CancelRegistry, is_done, cancel_context, made, joined, fresh_entry, init, context_of,
  request_cancel, request_cancel_active, is_cancelled, reset_if_idle, release,
}
use musi_flac.Cancel.Invariant.{IsValid}
use musi_flac.Cancel.Sweeping.{in_use, swept, swept_value, lookup-sweep}
use musi_flac.Cancel.Runs.{
  CancelOp, join, cancel, leave, reset, cancel_active, call, calls, call-IsValid, calls-IsValid,
}
use musi_flac.Cancel.Automaton.{
  Standing, absent, joins, cuts, leaves, resets, cuts_used, step, steps, is_cut, is_used,
  standing_of, standing,
}

-- The entry that an insertion or a removal leaves of the id.
standing-insert :
    (id j : Bytes) (e : CancelEntry) (r : CancelRegistry) (contexts : List Bool)
    → standing id (record { entries = insert j e r.entries; contexts = contexts })
      ≡ (if j =ₛ id then standing_of (some e) else standing id r)
standing-insert id j e r contexts = ap standing_of (lookup-insert j id e r.entries) ∙ ground arith

standing-erase :
    (id j : Bytes) (r : CancelRegistry)
    → standing id (record r { entries = erase j r.entries })
      ≡ (if j =ₛ id then absent else standing id r)
unfolding standing_of
standing-erase id j r = ap standing_of (lookup-erase j id r.entries) ∙ ground arith

-- Where the id of an operation stands.
here_standing :
    (id j : Bytes) (r : CancelRegistry) (o : Option CancelEntry)
    → lookup j r.entries ≡ o
    → (j =ₛ id) ≡ true
    → standing id r ≡ standing_of o
here_standing id j r o here same =
    ap (λ k. standing k r) (sym ((=ₛ_iff j id).0 same)) ∙ ap standing_of here

module _ (id : Bytes) (named : (id =ₛ []) ≡ false) where
  not_empty : (j : Bytes) → (j =ₛ []) ≡ true → (j =ₛ id) ≡ false
  not_empty j empty = ground (arith, =ₛ_iff j [], =ₛ_iff j id, empty, named)

  call-join :
      (j : Bytes) (r : CancelRegistry)
      → IsValid r
      → standing id (init j r).1 ≡ step id (join j) (standing id r)
  unfolding step joins standing_of init joined
  call-join j r v = elim (Bool-cases (j =ₛ [])) [
    | inl empty ↦ ground (arith, empty, not_empty j empty)
    | inr filled ↦ elim (Option-cases (lookup j r.entries)) [
      | inl missing ↦
          let e = fresh_entry (length r.contexts) in
          ground (
            arith,
            filled,
            missing,
            here_standing id j r none missing,
            standing-insert id j e r (r.contexts ++ (false ∷ [])),
          )
      | inr (e, here) ↦
          let e' = joined (length r.contexts) e in
          ground (
            arith,
            filled,
            here,
            here_standing id j r (some e) here,
            standing-insert id j e' r (made e r.contexts),
            v.waiting j e here,
          )
    ]
  ]

  call-cancel :
      (j : Bytes) (r : CancelRegistry)
      → IsValid r
      → standing id (request_cancel j r) ≡ step id (cancel j) (standing id r)
  unfolding step cuts standing_of request_cancel
  call-cancel j r v = elim (Bool-cases (j =ₛ [])) [
    | inl empty ↦ ground (arith, empty, not_empty j empty)
    | inr filled ↦ elim (Option-cases (lookup j r.entries)) [
      | inl missing ↦
          let e : CancelEntry = record { ctx = none; canceled = true; refs = 0 } in
          ground (
            arith,
            filled,
            missing,
            here_standing id j r none missing,
            standing-insert id j e r r.contexts,
          )
      | inr (e, here) ↦ ground (
        arith,
        filled,
        here,
        here_standing id j r (some e) here,
        standing-insert id j (record e { canceled = true }) r (cancel_context e.ctx r.contexts),
      )
    ]
  ]

  call-leave :
      (j : Bytes) (r : CancelRegistry)
      → IsValid r
      → standing id (release j r) ≡ step id (leave j) (standing id r)
  unfolding step leaves standing_of release
  call-leave j r v = elim (Bool-cases (j =ₛ [])) [
    | inl empty ↦ ground (arith, empty, not_empty j empty)
    | inr filled ↦ elim (Option-cases (lookup j r.entries)) [
      | inl missing ↦ ground (arith, filled, missing, here_standing id j r none missing)
      | inr (e, here) ↦ ground (
        arith,
        filled,
        here,
        here_standing id j r (some e) here,
        standing-erase id j r,
        standing-insert id j (record e { refs = e.refs - 1 }) r r.contexts,
        v.waiting j e here,
      )
    ]
  ]

  call-reset :
      (j : Bytes) (r : CancelRegistry)
      → IsValid r
      → standing id (reset_if_idle j r) ≡ step id (reset j) (standing id r)
  unfolding step resets standing_of reset_if_idle
  call-reset j r v = elim (Bool-cases (j =ₛ [])) [
    | inl empty ↦ ground (arith, empty, not_empty j empty)
    | inr filled ↦ elim (Option-cases (lookup j r.entries)) [
      | inl missing ↦ ground (arith, filled, missing, here_standing id j r none missing)
      | inr (e, here) ↦ elim (Option-cases e.ctx) [
        | inl no_ctx ↦ ground (
          arith,
          filled,
          here,
          here_standing id j r (some e) here,
          standing-erase id j r,
          no_ctx,
          v.waiting j e here no_ctx,
        )
        | inr (c, ctx) ↦ ground (
          arith,
          filled,
          here,
          here_standing id j r (some e) here,
          standing-erase id j r,
          ctx,
          v.live j e c here ctx,
        )
      ]
    ]
  ]

  call-active :
      (r : CancelRegistry)
      → IsValid r
      → standing id (request_cancel_active r).1 ≡ cuts_used (standing id r)
  unfolding cuts_used standing_of request_cancel_active swept_value swept
  call-active r v =
      ap standing_of (lookup-sweep id r.entries r.contexts)
      ∙ elim (Option-cases (lookup id r.entries)) [
        | inl missing ↦ ground (arith, missing)
        | inr (e, here) ↦ elim (Option-cases e.ctx) [
          | inl no_ctx ↦ ground (arith, here, no_ctx, v.waiting id e here no_ctx)
          | inr (c, ctx) ↦ ground (arith, here, ctx, v.live id e c here ctx)
        ]
      ]

  call-standing :
      (op : CancelOp) (r : CancelRegistry)
      → IsValid r
      → standing id (call op r) ≡ step id op (standing id r)
  unfolding call
  call-standing (join j) r v = call-join j r v
  call-standing (cancel j) r v = call-cancel j r v
  call-standing (leave j) r v = call-leave j r v
  call-standing (reset j) r v = call-reset j r v
  call-standing cancel_active r v = unfold step in call-active r v

  calls-standing :
      (ops : List CancelOp) (r : CancelRegistry)
      → IsValid r
      → standing id (calls ops r) ≡ steps id ops (standing id r)
  unfolding calls steps
  calls-standing [] r v = refl
  calls-standing (op ∷ ops) r v =
      calls-standing ops (call op r) (call-IsValid op r v)
      ∙ ap (steps id ops) (call-standing op r v)

-- What a caller sees of an id that stands at `s`.
pub record IsSeen (id : Bytes) (s : Standing) (r : CancelRegistry) : Type 0 where
  pub flagged : is_cancelled id r ≡ is_cut s
  pub stopped : is_done (context_of id r) r.contexts ≡ (is_used s && is_cut s)
  pub shared : in_use (lookup id r.entries) ≡ is_used s
  pub counted : standing id r ≡ s

seen :
    (id : Bytes) (r : CancelRegistry) → (id =ₛ []) ≡ false → IsValid r → IsSeen id (standing id r) r
unfolding is_cut is_used standing_of is_cancelled context_of in_use is_done
seen id r named v = elim (Option-cases (lookup id r.entries)) [
  | inl missing ↦ record {
    flagged = ground (arith, named, missing);
    stopped = ground (arith, named, missing);
    shared = ground (arith, named, missing);
    counted = refl;
  }
  | inr (e, here) ↦ elim (Option-cases e.ctx) [
    | inl no_ctx ↦
        let waits = v.waiting id e here no_ctx in
        record {
          flagged = ground (arith, named, here, no_ctx, waits);
          stopped = ground (arith, named, here, no_ctx, waits);
          shared = ground (arith, named, here, no_ctx, waits);
          counted = refl;
        }
    | inr (c, ctx) ↦ record {
      flagged = ground (arith, named, here, ctx);
      stopped = ground (arith, named, here, ctx, v.flag id e c here ctx);
      shared = ground (arith, named, here, ctx, v.live id e c here ctx);
      counted = refl;
    }
  ]
]

-- After any calls on a valid registry, an id that is not empty stands where an automaton of its own says,
-- which knows nothing of the other ids: it is cancelled, has so many users, and is in use as the automaton
-- says, and the context that its users share is cancelled just when the id is in use and was cancelled
-- before its first user came or while one had not left.
pub calls-IsSeen :
    (ops : List CancelOp) (id : Bytes) (r : CancelRegistry)
    → (id =ₛ []) ≡ false
    → IsValid r
    → IsSeen id (steps id ops (standing id r)) (calls ops r)
calls-IsSeen ops id r named v =
    subst (λ s. IsSeen id s (calls ops r)) (calls-standing id named ops r v)
      (seen id (calls ops r) named (calls-IsValid ops r v))
