-- ===== src/Cancel/Invariant.antt =====
-- The invariant of the registry of go_backend/cancel.go: contexts and entries agree.
use musi_flac.Prelude.{
  ℕ, zero, suc, ◌+◌, ◌≤◌, ◌<◌, ◌≡◌, refl, Bool, true, false, List, [], ◌∷◌, ◌++◌, none, some, arith,
  ◌==◌, if◌then◌else◌, length, get_or, set, length-append, Bytes, =ₛ_iff,
}
use musi_flac.Prelude.Dict.{
  lookup, insert, erase, IsDict, lookup-insert, lookup-erase, insert-IsDict, erase-IsDict,
}
use musi_flac.Cancel.{CancelEntry, CancelRegistry, empty_registry}

-- An entry with a context is in use and its context is cancelled just when the entry is; an entry
-- without one waits, cancelled; no two entries share a context.
pub record IsValid (r : CancelRegistry) : Type 0 where
  pub dict : IsDict r.entries
  pub ctx_in :
      (id : Bytes) (e : CancelEntry) (c : ℕ)
      → lookup id r.entries ≡ some e
      → e.ctx ≡ some c
      → c < length r.contexts
  pub flag :
      (id : Bytes) (e : CancelEntry) (c : ℕ)
      → lookup id r.entries ≡ some e
      → e.ctx ≡ some c
      → get_or r.contexts c false ≡ e.canceled
  pub waiting :
      (id : Bytes) (e : CancelEntry)
      → lookup id r.entries ≡ some e
      → e.ctx ≡ none
      → (e.refs ≡ 0) × (e.canceled ≡ true)
  pub live :
      (id : Bytes) (e : CancelEntry) (c : ℕ)
      → lookup id r.entries ≡ some e
      → e.ctx ≡ some c
      → 1 ≤ e.refs
  pub own :
      (i j : Bytes) (e f : CancelEntry) (c : ℕ)
      → lookup i r.entries ≡ some e
      → lookup j r.entries ≡ some f
      → e.ctx ≡ some c
      → f.ctx ≡ some c
      → i ≡ j

pub empty-IsValid : IsValid empty_registry
unfolding IsDict lookup
empty-IsValid = record {
  dict = tt;
  ctx_in = λ id e c h k. cc;
  flag = λ id e c h k. cc;
  waiting = λ id e h k. cc;
  live = λ id e c h k. cc;
  own = λ i j e f c h h' k k'. cc;
}

-- What the store has behind its end, and before it, after one more context.
pub get_or-append_end : (cs : List Bool) (b : Bool) → get_or (cs ++ (b ∷ [])) (length cs) false ≡ b
get_or-append_end [] b = refl
get_or-append_end (c ∷ cs) b = get_or-append_end cs b

pub get_or-append_lt :
    (cs : List Bool) (b : Bool) (c : ℕ)
    → c < length cs
    → get_or (cs ++ (b ∷ [])) c false ≡ get_or cs c false
get_or-append_lt [] b c h = absurd (omega arith)
get_or-append_lt (d ∷ cs) b zero h = refl
get_or-append_lt (d ∷ cs) b (suc c) h = get_or-append_lt cs b c (omega arith)

length-add : (cs : List Bool) (b : Bool) → length (cs ++ (b ∷ [])) ≡ length cs + 1
length-add cs b = length-append cs (b ∷ [])

pub get_or-set :
    (cs : List Bool) (i c : ℕ)
    → i < length cs
    → get_or (set cs i true) c false ≡ (if i == c then true else get_or cs c false)
get_or-set [] i c h = absurd (omega arith)
get_or-set (d ∷ cs) zero zero h = refl
get_or-set (d ∷ cs) zero (suc c) h = ground arith
get_or-set (d ∷ cs) (suc i) zero h = ground arith
get_or-set (d ∷ cs) (suc i) (suc c) h = ground (arith, get_or-set cs i c)

-- An entry that is added with a context of its own.
pub add-IsValid :
    (id : Bytes) (r : CancelRegistry) (e : CancelEntry)
    → IsValid r
    → e.ctx ≡ some (length r.contexts)
    → 1 ≤ e.refs
    → IsValid
        (record { entries = insert id e r.entries; contexts = r.contexts ++ (e.canceled ∷ []) })
add-IsValid id r e v here used = record {
  dict = insert-IsDict id e r.entries v.dict;
  ctx_in = λ j f c h k.
      ground
        (arith, lookup-insert id j e r.entries, length-add r.contexts e.canceled, v.ctx_in j f c);
  flag = λ j f c h k. ground (
    arith,
    lookup-insert id j e r.entries,
    get_or-append_end r.contexts e.canceled,
    get_or-append_lt r.contexts e.canceled c,
    v.ctx_in j f c,
    v.flag j f c,
  );
  waiting = λ j f h k. ground (arith, lookup-insert id j e r.entries, v.waiting j f);
  live = λ j f c h k. ground (arith, lookup-insert id j e r.entries, v.live j f c);
  own = λ i j f g c h h' k k'. ground (
    arith,
    lookup-insert id i e r.entries,
    lookup-insert id j e r.entries,
    =ₛ_iff id i,
    =ₛ_iff id j,
    v.ctx_in i f c,
    v.ctx_in j g c,
    v.own i j f g c,
  );
}

-- An entry that changes and keeps its context.
pub change-IsValid :
    (id : Bytes) (r : CancelRegistry) (e e' : CancelEntry) (contexts : List Bool)
    → IsValid r
    → lookup id r.entries ≡ some e
    → e'.ctx ≡ e.ctx
    → length contexts ≡ length r.contexts
    → ((c : ℕ) → e.ctx ≡ some c → (get_or contexts c false ≡ e'.canceled) × (1 ≤ e'.refs))
    → ((c : ℕ) → ¬ (e.ctx ≡ some c) → get_or contexts c false ≡ get_or r.contexts c false)
    → (e.ctx ≡ none → (e'.refs ≡ 0) × (e'.canceled ≡ true))
    → IsValid (record { entries = insert id e' r.entries; contexts = contexts })
change-IsValid id r e e' contexts v here same size flag' others waits = record {
  dict = insert-IsDict id e' r.entries v.dict;
  ctx_in =
      λ j f c h k. ground (arith, lookup-insert id j e' r.entries, v.ctx_in j f c, v.ctx_in id e c);
  flag = λ j f c h k. ground (
    arith,
    lookup-insert id j e' r.entries,
    v.flag j f c,
    v.own id j e f c here,
    =ₛ_iff id j,
    flag' c,
    others c,
  );
  waiting = λ j f h k. ground (arith, lookup-insert id j e' r.entries, v.waiting j f, waits);
  live = λ j f c h k. ground (arith, lookup-insert id j e' r.entries, v.live j f c, flag' c);
  own = λ i j f g c h h' k k'. ground (
    arith,
    lookup-insert id i e' r.entries,
    lookup-insert id j e' r.entries,
    =ₛ_iff id i,
    =ₛ_iff id j,
    v.own i j f g c,
    v.own id j e g c,
    v.own i id f e c,
  );
}

-- An entry that goes.
pub erase-IsValid :
    (id : Bytes) (r : CancelRegistry)
    → IsValid r
    → IsValid (record r { entries = erase id r.entries })
erase-IsValid id r v = record {
  dict = erase-IsDict id r.entries v.dict;
  ctx_in = λ j f c h k. ground (arith, lookup-erase id j r.entries, v.ctx_in j f c);
  flag = λ j f c h k. ground (arith, lookup-erase id j r.entries, v.flag j f c);
  waiting = λ j f h k. ground (arith, lookup-erase id j r.entries, v.waiting j f);
  live = λ j f c h k. ground (arith, lookup-erase id j r.entries, v.live j f c);
  own = λ i j f g c h h' k k'.
      ground (arith, lookup-erase id i r.entries, lookup-erase id j r.entries, v.own i j f g c);
}
