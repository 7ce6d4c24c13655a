-- ===== src/RateLimit/Waiting.antt =====
-- `WaitForSlotContext` of go_backend/ratelimit.go gets its slot when nobody else takes it.
use musi_flac.Prelude.{
  ℕ, ◌+◌, ◌-◌, ◌≤◌, ◌<◌, ◌≡◌, refl, ap, ◌∙◌, subst, false, List, [], ◌∷◌, arith, length, ltb,
  Bool-cases, inl, inr, ◌⊎◌, pos, sub_ℕ,
}
use musi_flac.RateLimit.{
  Limiter, Reply, granted, wait, Round, slot, clean_old_timestamps, attempt, wait_duration, calls,
  wait_for_slot_context,
}
use musi_flac.RateLimit.Cleaning.{recent, recent-recent}
use musi_flac.RateLimit.Refinement.{Refines, clean, clean-Refines, kept_log, length-recent}

-- The goroutine is woken no earlier than the duration it waits for.
abbrev pub IsWoken : Reply → ℕ → ℕ → Type 0
IsWoken (wait (pos d)) now woken = now + d ≤ woken
IsWoken _ now woken = now ≤ woken

-- With the oldest timestamp gone, there is room.
oldest_gone :
    (window woken t : ℕ) (ts : List ℕ)
    → t + window ≤ woken
    → length (recent window woken (t ∷ ts)) ≤ length ts
unfolding recent
oldest_gone window woken t ts h = ground (arith, length-recent window woken ts)

-- A timestamp that counts still counts for a positive time.
first_recent :
    (window now t : ℕ) (ts log : List ℕ) → recent window now log ≡ t ∷ ts → now < t + window
unfolding recent
first_recent window now t ts [] e = cc
first_recent window now t ts (u ∷ log) e = ground (arith, e, first_recent window now t ts log)

module _ (max window last now : ℕ) (r : Limiter) (log : List ℕ) (h : Refines max window last r log)
    (le : last ≤ now) where
  granted_of_room : length (recent window now log) < max → (attempt now r).0 ≡ granted
  unfolding attempt
  granted_of_room free =
      let c = clean-Refines max window last now r log h le in
      let k = kept_log max window last now r log h le in ground (arith, free, ap length k, c.limit)

  -- Without room, the reply says how long the oldest timestamp counts.
  record IsFull : Type 0 where
    duration : ℕ
    reply : (attempt now r).0 ≡ wait (pos duration)
    positive : 0 < duration
    after : (attempt now r).1 ≡ clean_old_timestamps now r
    enough : (woken : ℕ) → now + duration ≤ woken → length (recent window woken log) < max

  full_of_no_room : 0 < max → max ≤ length (recent window now log) → IsFull
  unfolding attempt wait_duration
  full_of_no_room some_slot full = go (recent window now log) refl
    where
      go : (ts : List ℕ) → recent window now log ≡ ts → IsFull
      go [] e = absurd (omega (arith, ap length e))
      go (t ∷ ts) e =
          let counts = first_recent window now t ts log e in
          let e' = kept_log max window last now r log h le ∙ e in
          let c = clean-Refines max window last now r log h le in
          let ready = clean max window last now r log h le in
          let is_full : ltb (length ready.timestamps) ready.max_requests ≡ false =
            ground (arith, full, ap length e, ap length e', c.limit) in
          record {
            duration = t + window - now;
            reply = rw is_full (
                ap (wait_duration ready.window now) e'
                ∙ ap (λ w. wait (sub_ℕ (t + w) now)) c.width
                ∙ ap wait (ground arith));
            positive = omega arith;
            after = rw is_full refl;
            enough = λ woken late.
                let again = recent-recent window now woken log (omega arith) in
                let shorter = oldest_gone window woken t ts (omega arith) in
                omega (
                  arith,
                  shorter,
                  c.fits,
                  ap length e',
                  ap length again,
                  ap (λ l. length (recent window woken l)) e,
                );
          }

module _ (max window last now : ℕ) (r : Limiter) (log : List ℕ) where
  -- On a limiter that stands for a log, with a limit of at least one, `WaitForSlotContext` returns with
  -- a slot in its first round or its second, when its context is not done, it is woken no earlier than
  -- it asked for, and no other goroutine calls in between.
  pub wait_alone :
      (y : Round) (rounds : List Round)
      → Refines max window last r log
      → last ≤ now
      → 0 < max
      → IsWoken (attempt now r).0 now y.now
      → let x : Round = record { now = now; gives_up = false; others = [] } in
        let waited = (wait_for_slot_context (x ∷ y ∷ rounds) r).0 in
        (waited ≡ slot now) ⊎ (waited ≡ slot y.now)
  unfolding wait_for_slot_context calls
  wait_alone y rounds h le some_slot woken =
      elim (Bool-cases (ltb (length (recent window now log)) max)) [
        | inl free ↦
            let got = granted_of_room max window last now r log h le (ground (arith, free)) in
            inl (ground (arith, got))
        | inr full ↦
            let f =
              full_of_no_room max window last now r log h le some_slot (ground (arith, full)) in
            let late = subst (λ reply. IsWoken reply now y.now) f.reply woken in
            let r' = clean_old_timestamps now r in
            let got : (attempt y.now r').0 ≡ granted =
              granted_of_room max window now y.now r' log
                (clean-Refines max window last now r log h le) (omega arith)
                (f.enough y.now late) in
            inr (ground (arith, f.reply, f.after, got, f.positive))
      ]
