-- ===== src/Cancel/Sweeping.antt =====
-- The loop of `requestCancelActive` of go_backend/cancel.go.
use musi_flac.Prelude.{
  ℕ, zero, suc, ◌≤◌, ◌<◌, ◌≡◌, refl, sym, ◌∙◌, Bool, true, false, List, [], ◌∷◌, Option, none, some,
  arith, ltb, ◌==◌, if◌then◌else◌, length, get_or, set, Bytes, =ₛ_iff,
}
use musi_flac.Prelude.Dict.{lookup, IsDict}
use musi_flac.Progress.Delta.{is_listed}
use musi_flac.Cancel.{CancelEntry, CancelRegistry, cancel_context, sweep, request_cancel_active}
use musi_flac.Cancel.Invariant.{IsValid}
use musi_flac.Cancel.Kept.{length-cancel_context, cancel_context-hit, cancel_context-miss}

-- What the loop makes of one entry, and of what a key has.
unfoldable pub swept : CancelEntry → CancelEntry
swept e = if e.refs == 0 then e else record e { canceled = true }

unfoldable pub swept_value : Option CancelEntry → Option CancelEntry
swept_value none = none
swept_value (some e) = some (swept e)

-- Whether an entry is in use.
unfoldable pub in_use : Option CancelEntry → Bool
in_use none = false
in_use (some e) = ltb 0 e.refs

pub lookup-sweep :
    (id : Bytes) (m : List (Bytes × CancelEntry)) (cs : List Bool)
    → lookup id (sweep m cs).entries ≡ swept_value (lookup id m)
unfolding sweep lookup swept_value swept
lookup-sweep id [] cs = refl
lookup-sweep id ((j, e) ∷ m) cs =
    ground (arith, lookup-sweep id m (if e.refs == 0 then cs else cancel_context e.ctx cs))

pub sweep-IsDict :
    (m : List (Bytes × CancelEntry)) (cs : List Bool) → IsDict m → IsDict (sweep m cs).entries
unfolding sweep IsDict swept_value
sweep-IsDict [] cs h = tt
sweep-IsDict ((j, e) ∷ m) cs h =
    let cs' = if e.refs == 0 then cs else cancel_context e.ctx cs in
    ground (arith, lookup-sweep j m cs', sweep-IsDict m cs' h.1, h.0)

pub length-sweep :
    (m : List (Bytes × CancelEntry)) (cs : List Bool) → length (sweep m cs).contexts ≡ length cs
unfolding sweep
length-sweep [] cs = refl
length-sweep ((j, e) ∷ m) cs = ground (
  arith,
  length-sweep m (if e.refs == 0 then cs else cancel_context e.ctx cs),
  length-cancel_context e.ctx cs,
)

get_or-set_stays :
    (cs : List Bool) (i c : ℕ) → get_or cs c false ≡ true → get_or (set cs i true) c false ≡ true
get_or-set_stays [] i c h = h
get_or-set_stays (d ∷ cs) zero zero h = refl
get_or-set_stays (d ∷ cs) zero (suc c) h = h
get_or-set_stays (d ∷ cs) (suc i) zero h = h
get_or-set_stays (d ∷ cs) (suc i) (suc c) h = get_or-set_stays cs i c h

-- A cancelled context stays cancelled.
pub cancel_context-stays :
    (o : Option ℕ) (cs : List Bool) (c : ℕ)
    → get_or cs c false ≡ true
    → get_or (cancel_context o cs) c false ≡ true
unfolding cancel_context
cancel_context-stays none cs c h = h
cancel_context-stays (some i) cs c h = get_or-set_stays cs i c h

pub sweep-stays :
    (m : List (Bytes × CancelEntry)) (cs : List Bool) (c : ℕ)
    → get_or cs c false ≡ true
    → get_or (sweep m cs).contexts c false ≡ true
unfolding sweep
sweep-stays [] cs c h = h
sweep-stays ((j, e) ∷ m) cs c h = ground (
  arith,
  sweep-stays m (if e.refs == 0 then cs else cancel_context e.ctx cs) c,
  cancel_context-stays e.ctx cs c h,
)

-- The context of an entry in use is cancelled.
pub sweep-hit :
    (id : Bytes) (e : CancelEntry) (m : List (Bytes × CancelEntry)) (cs : List Bool) (c : ℕ)
    → lookup id m ≡ some e
    → e.ctx ≡ some c
    → 1 ≤ e.refs
    → c < length cs
    → get_or (sweep m cs).contexts c false ≡ true
unfolding sweep lookup
sweep-hit id e [] cs c h k used lt = cc
sweep-hit id e ((j, f) ∷ m) cs c h k used lt =
    let cs' = if f.refs == 0 then cs else cancel_context f.ctx cs in
    ground (
      arith,
      sweep-hit id e m cs' c,
      length-cancel_context f.ctx cs,
      sweep-stays m cs' c,
      cancel_context-hit f.ctx cs c,
    )

-- A context of no entry is left alone.
pub sweep-miss :
    (m : List (Bytes × CancelEntry)) (cs : List Bool) (c : ℕ)
    → IsDict m
    → ((id : Bytes) (e : CancelEntry) → lookup id m ≡ some e → ¬ (e.ctx ≡ some c))
    → get_or (sweep m cs).contexts c false ≡ get_or cs c false
unfolding sweep lookup IsDict
sweep-miss [] cs c d h = refl
sweep-miss ((j, f) ∷ m) cs c d h =
    let cs' = if f.refs == 0 then cs else cancel_context f.ctx cs in
    ground (
      arith,
      sweep-miss m cs' c d.1 (λ id e k. h id e (ground (arith, =ₛ_iff j id, d.0, k))),
      cancel_context-miss f.ctx cs c (h j f (ground (arith, =ₛ_iff j j))),
    )

-- The ids returned are those in use.
pub is_listed-sweep :
    (id : Bytes) (m : List (Bytes × CancelEntry)) (cs : List Bool)
    → IsDict m
    → is_listed id (sweep m cs).ids ≡ in_use (lookup id m)
unfolding sweep lookup is_listed in_use IsDict
is_listed-sweep id [] cs d = refl
is_listed-sweep id ((j, e) ∷ m) cs d = ground (
  arith,
  is_listed-sweep id m (if e.refs == 0 then cs else cancel_context e.ctx cs) d.1,
  =ₛ_iff j id,
  d.0,
)

swept-some :
    (o : Option CancelEntry) (f : CancelEntry)
    → swept_value o ≡ some f
    → (e : CancelEntry) × (o ≡ some e) × (swept e ≡ f)
unfolding swept_value
swept-some none f h = cc
swept-some (some e) f h = (e, refl, ground arith)

pub request_cancel_active-IsValid :
    (r : CancelRegistry) → IsValid r → IsValid (request_cancel_active r).1
unfolding request_cancel_active swept
request_cancel_active-IsValid r v =
    let s = sweep r.entries r.contexts in
    let was = λ (id : Bytes) (f : CancelEntry) (h : lookup id s.entries ≡ some f).
      swept-some (lookup id r.entries) f (sym (lookup-sweep id r.entries r.contexts) ∙ h) in
    record {
      dict = sweep-IsDict r.entries r.contexts v.dict;
      ctx_in = λ id f c h k.
          let w = was id f h in
          ground (arith, length-sweep r.entries r.contexts, v.ctx_in id w.0 c w.1, w.2);
      flag = λ id f c h k.
          let w = was id f h in
          ground (
            arith,
            w.2,
            v.live id w.0 c w.1,
            v.ctx_in id w.0 c w.1,
            sweep-hit id w.0 r.entries r.contexts c w.1,
          );
      waiting = λ id f h k. let w = was id f h in ground (arith, w.2, v.waiting id w.0 w.1);
      live = λ id f c h k. let w = was id f h in ground (arith, w.2, v.live id w.0 c w.1);
      own = λ i j f g c h h' k k'.
          let w = was i f h in
          let w' = was j g h' in ground (arith, w.2, w'.2, v.own i j w.0 w'.0 c w.1 w'.1);
    }
