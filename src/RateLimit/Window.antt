-- ===== src/RateLimit/Window.antt =====
-- The limiter of go_backend/ratelimit.go never grants more slots within a window than its limit.
use musi_flac.Prelude.{
  ℕ, zero, suc, ◌+◌, ◌≤◌, ◌<◌, ◌≡◌, refl, sym, ap, subst, List, [], ◌∷◌, ◌++◌, arith, length, ltb,
  Bool-cases, inl, inr, ◌⊎◌, tests, get_elem?, some, All-append, append-nil, append_assoc,
}
use musi_flac.RateLimit.{
  Reply, granted, refused, wait, out_of_range, room, Call, acquiring, asking, attempting,
  new_rate_limiter, wait_duration, calls,
}
use musi_flac.RateLimit.Cleaning.{
  IsOrdered, AreUntil, recent, recent-all, append-IsOrdered, AreUntil-later,
}
use musi_flac.RateLimit.Refinement.{spec_call, spec_calls, AreTimed, calls-refine}

-- The times of the slots granted.
unfoldable pub grants : List (ℕ × Reply) → List ℕ
grants [] = []
grants ((now, granted) ∷ rest) = now ∷ grants rest
grants ((now, refused) ∷ rest) = grants rest
grants ((now, wait d) ∷ rest) = grants rest
grants ((now, out_of_range) ∷ rest) = grants rest
grants ((now, room n) ∷ rest) = grants rest

-- An old enough entry is followed by entries that all count.
length-recent_from :
    (window now from i a : ℕ) (log : List ℕ)
    → IsOrdered from log
    → get_elem? log i ≡ some a
    → now < a + window
    → length log ≤ i + length (recent window now log)
unfolding recent
length-recent_from window now from i a [] o at h = cc
length-recent_from window now from zero a (t ∷ rest) o at h =
    let same : t ≡ a = cc in
    omega (arith, ap length (recent-all window now t (t ∷ rest) (omega arith) (omega arith, o.1)))
length-recent_from window now from (suc i) a (t ∷ rest) o at h =
    ground (arith, length-recent_from window now t i a rest o.1 at h)

get-append_end :
    (log : List ℕ) (now i a : ℕ)
    → get_elem? (log ++ (now ∷ [])) i ≡ some a
    → ((get_elem? log i ≡ some a) × (i < length log)) ⊎ ((i ≡ length log) × (a ≡ now))
get-append_end [] now zero a at = inr (refl, cc)
get-append_end [] now (suc i) a at = cc
get-append_end (t ∷ log) now zero a at = inl (at, omega arith)
get-append_end (t ∷ log) now (suc i) a at = elim (get-append_end log now i a at) [
  | inl old ↦ inl (old.0, omega arith)
  | inr new ↦ inr (omega arith, new.1)
]

module _ (max window : ℕ) where
  -- A slot comes a window after the slot that is `max` before it.
  pub record IsSpaced (last : ℕ) (log : List ℕ) : Type 0 where
    pub ordered : IsOrdered 0 log
    pub past : AreUntil last log
    pub apart :
        (i a b : ℕ) → get_elem? log i ≡ some a → get_elem? log (i + max) ≡ some b → a + window ≤ b

  append-IsSpaced :
      (last now : ℕ) (log : List ℕ)
      → IsSpaced last log
      → last ≤ now
      → length (recent window now log) < max
      → IsSpaced now (log ++ (now ∷ []))
  append-IsSpaced last now log h le free =
      let past = AreUntil-later last now log le h.past in
      record {
        ordered = append-IsOrdered 0 now log h.ordered past (omega arith);
        past = All-append (λ t. t ≤ now) log (now ∷ []) past (omega arith, tt);
        apart = λ i a b at at'. elim (get-append_end log now (i + max) b at') [
          | inl old ↦ elim (get-append_end log now i a at) [
            | inl old' ↦ h.apart i a b old'.0 old.0
            | inr new' ↦ absurd (omega (arith, old.1, new'.0))
          ]
          | inr new ↦ elim (get-append_end log now i a at) [
            | inl old' ↦
                ground (arith, new, length-recent_from window now 0 i a log h.ordered old'.0)
            | inr new' ↦ absurd (omega (arith, new.0, new'.0, free))
          ]
        ];
      }

  later-IsSpaced : (last now : ℕ) (log : List ℕ) → IsSpaced last log → last ≤ now → IsSpaced now log
  later-IsSpaced last now log h le = record {
    ordered = h.ordered;
    past = AreUntil-later last now log le h.past;
    apart = h.apart;
  }

  spec_call-IsSpaced :
      (last now : ℕ) (c : Call) (log : List ℕ)
      → IsSpaced last log
      → last ≤ now
      → IsSpaced now (spec_call max window c now log).1
  unfolding spec_call
  spec_call-IsSpaced last now asking log h le = later-IsSpaced last now log h le
  spec_call-IsSpaced last now acquiring log h le =
      elim (Bool-cases (ltb (length (recent window now log)) max)) [
        | inl free ↦ rw free (append-IsSpaced last now log h le (omega (tests, free)))
        | inr full ↦ rw full (later-IsSpaced last now log h le)
      ]
  spec_call-IsSpaced last now attempting log h le =
      elim (Bool-cases (ltb (length (recent window now log)) max)) [
        | inl free ↦ rw free (append-IsSpaced last now log h le (omega (tests, free)))
        | inr full ↦ rw full (later-IsSpaced last now log h le)
      ]

  grants-wait_duration :
      (w now : ℕ) (ts : List ℕ) (rest : List (ℕ × Reply))
      → grants ((now, wait_duration w now ts) ∷ rest) ≡ grants rest
  unfolding grants wait_duration
  grants-wait_duration w now [] rest = refl
  grants-wait_duration w now (t ∷ ts) rest = refl

  -- The log grows by what is granted.
  spec_call-grants :
      (now : ℕ) (c : Call) (log : List ℕ) (rest : List (ℕ × Reply))
      → let (reply, log') = spec_call max window c now log in
        log' ++ grants rest ≡ log ++ grants ((now, reply) ∷ rest)
  unfolding spec_call grants
  spec_call-grants now asking log rest = refl
  spec_call-grants now acquiring log rest =
      elim (Bool-cases (ltb (length (recent window now log)) max)) [
        | inl free ↦ rw free (append_assoc log (now ∷ []) (grants rest))
        | inr full ↦ rw full refl
      ]
  spec_call-grants now attempting log rest =
      elim (Bool-cases (ltb (length (recent window now log)) max)) [
        | inl free ↦ rw free (append_assoc log (now ∷ []) (grants rest))
        | inr full ↦ rw full (
            ap (λ ys. log ++ ys)
              (sym (grants-wait_duration window now (recent window now log) rest)))
      ]

  spec_calls-IsSpaced :
      (last : ℕ) (cs : List (ℕ × Call)) (log : List ℕ)
      → IsSpaced last log
      → AreTimed last cs
      → (end : ℕ) × IsSpaced end (log ++ grants (spec_calls max window cs log).0)
  unfolding spec_calls
  spec_calls-IsSpaced last [] log h timed = (last, unfold grants in rw (append-nil log) h)
  spec_calls-IsSpaced last ((now, c) ∷ rest) log h timed =
      let log' = (spec_call max window c now log).1 in
      let ih =
        spec_calls-IsSpaced now rest log' (spec_call-IsSpaced last now c log h timed.0) timed.1 in
      (
        ih.0,
        subst (IsSpaced ih.0) (spec_call-grants now c log (spec_calls max window rest log').0) ih.1,
      )

  -- Of the slots that a new limiter grants to calls at times that do not go back, each comes at least a
  -- window after the slot that is as many before it as the limit allows.
  pub grants-apart :
      (cs : List (ℕ × Call)) (i a b : ℕ)
      → AreTimed 0 cs
      → let slots = grants (calls cs (new_rate_limiter max window)).0 in
        get_elem? slots i ≡ some a → get_elem? slots (i + max) ≡ some b → a + window ≤ b
  grants-apart cs i a b timed =
      let none_yet : IsSpaced 0 [] = record {
        ordered = tt;
        past = tt;
        apart = λ i a b at at'. cc;
      } in
      rw (calls-refine max window cs timed)
        ((spec_calls-IsSpaced 0 cs [] none_yet timed).1.apart i a b)
