-- ===== src/Cancel/Kept.antt =====
-- The operations of go_backend/cancel.go on one id keep the invariant.
use musi_flac.Prelude.{
  ℕ, ◌+◌, ◌-◌, ◌<◌, ◌≡◌, refl, sym, ap, inl, inr, Bool, true, false, List, [], Option, none, some,
  Option-cases, Bool-cases, arith, leb, ◌==◌, length, get_or, length-set, get_or-set_ne, Bytes,
  ◌=ₛ◌,
}
use musi_flac.Prelude.Dict.{lookup, insert, lookup-insert, insert-IsDict}
use musi_flac.Cancel.{
  CancelEntry, CancelRegistry, cancel_context, joined, made, fresh_entry, init, request_cancel,
  reset_if_idle, release,
}
use musi_flac.Cancel.Invariant.{IsValid, add-IsValid, change-IsValid, erase-IsValid, get_or-set}

pub init-IsValid : (id : Bytes) (r : CancelRegistry) → IsValid r → IsValid (init id r).1
unfolding init joined made
init-IsValid id r v = elim (Bool-cases (id =ₛ [])) [
  | inl empty ↦ rw empty v
  | inr named ↦ rw named (elim (Option-cases (lookup id r.entries)) [
    | inl missing ↦
        rw missing (add-IsValid id r (fresh_entry (length r.contexts)) v refl (omega arith))
    | inr (e, here) ↦ rw here (elim (Option-cases e.ctx) [
      | inl no_ctx ↦ rw no_ctx (
          add-IsValid id r
            (record { ctx = some (length r.contexts); canceled = e.canceled; refs = e.refs + 1 }) v
            refl (omega arith))
      | inr (c, ctx) ↦ rw ctx (
          change-IsValid id r e (record { ctx = some c; canceled = e.canceled; refs = e.refs + 1 })
            r.contexts v here (sym ctx) refl (λ d h. (v.flag id e d here h, omega arith))
            (λ d h. refl) (λ h. ground (arith, ctx, h)))
    ])
  ])
]

-- An entry that waits, added where there is none.
wait-IsValid :
    (id : Bytes) (r : CancelRegistry)
    → IsValid r
    → IsValid (record r {
      entries = insert id (record { ctx = none; canceled = true; refs = 0 }) r.entries;
    })
wait-IsValid id r v =
    let e : CancelEntry = record { ctx = none; canceled = true; refs = 0 } in
    record {
      dict = insert-IsDict id e r.entries v.dict;
      ctx_in = λ j f c h k. ground (arith, lookup-insert id j e r.entries, v.ctx_in j f c);
      flag = λ j f c h k. ground (arith, lookup-insert id j e r.entries, v.flag j f c);
      waiting = λ j f h k. ground (arith, lookup-insert id j e r.entries, v.waiting j f);
      live = λ j f c h k. ground (arith, lookup-insert id j e r.entries, v.live j f c);
      own = λ i j f g c h h' k k'.
          ground (
            arith,
            lookup-insert id i e r.entries,
            lookup-insert id j e r.entries,
            v.own i j f g c,
          );
    }

pub length-cancel_context :
    (o : Option ℕ) (cs : List Bool) → length (cancel_context o cs) ≡ length cs
unfolding cancel_context
length-cancel_context none cs = refl
length-cancel_context (some i) cs = length-set cs i true

pub cancel_context-hit :
    (o : Option ℕ) (cs : List Bool) (c : ℕ)
    → o ≡ some c
    → c < length cs
    → get_or (cancel_context o cs) c false ≡ true
unfolding cancel_context
cancel_context-hit none cs c h lt = cc
cancel_context-hit (some i) cs c h lt = ground (arith, get_or-set cs i c)

pub cancel_context-miss :
    (o : Option ℕ) (cs : List Bool) (c : ℕ)
    → ¬ (o ≡ some c)
    → get_or (cancel_context o cs) c false ≡ get_or cs c false
unfolding cancel_context
cancel_context-miss none cs c h = refl
cancel_context-miss (some i) cs c h = get_or-set_ne cs i c true false (λ e. h (ap some e))

pub request_cancel-IsValid :
    (id : Bytes) (r : CancelRegistry) → IsValid r → IsValid (request_cancel id r)
unfolding request_cancel
request_cancel-IsValid id r v = elim (Bool-cases (id =ₛ [])) [
  | inl empty ↦ rw empty v
  | inr named ↦ rw named (elim (Option-cases (lookup id r.entries)) [
    | inl missing ↦ rw missing (wait-IsValid id r v)
    | inr (e, here) ↦ rw here (
        change-IsValid id r e (record e { canceled = true }) (cancel_context e.ctx r.contexts) v
          here refl (length-cancel_context e.ctx r.contexts)
          (λ c h. (
            cancel_context-hit e.ctx r.contexts c h (v.ctx_in id e c here h),
            v.live id e c here h,
          ))
          (λ c h. cancel_context-miss e.ctx r.contexts c h)
          (λ h. ((v.waiting id e here h).0, refl)))
  ])
]

pub release-IsValid : (id : Bytes) (r : CancelRegistry) → IsValid r → IsValid (release id r)
unfolding release
release-IsValid id r v = elim (Bool-cases (id =ₛ [])) [
  | inl empty ↦ rw empty v
  | inr named ↦ rw named (elim (Option-cases (lookup id r.entries)) [
    | inl missing ↦ rw missing v
    | inr (e, here) ↦ rw here (elim (Bool-cases (leb e.refs 1)) [
      | inl last ↦ rw last (erase-IsValid id r v)
      | inr others ↦ rw others (
          change-IsValid id r e (record e { refs = e.refs - 1 }) r.contexts v here refl refl
            (λ d h. (v.flag id e d here h, ground (arith, others))) (λ d h. refl)
            (λ h. ground (arith, others, v.waiting id e here h)))
    ])
  ])
]

pub reset_if_idle-IsValid :
    (id : Bytes) (r : CancelRegistry) → IsValid r → IsValid (reset_if_idle id r)
unfolding reset_if_idle
reset_if_idle-IsValid id r v = elim (Bool-cases (id =ₛ [])) [
  | inl empty ↦ rw empty v
  | inr named ↦ rw named (elim (Option-cases (lookup id r.entries)) [
    | inl missing ↦ rw missing v
    | inr (e, here) ↦ rw here (elim (Bool-cases (e.refs == 0)) [
      | inl idle ↦ rw idle (erase-IsValid id r v)
      | inr used ↦ rw used v
    ])
  ])
]
