-- ===== src/Policy/Bounds.antt =====
-- Every policy of go_backend/extension_transfer_policy.go keeps its bounds, whatever the manifest says.
use musi_flac.Prelude.{
  ◌≡◌, refl, sym, subst, true, false, not, ◌&&◌, List, [], ◌∷◌, none, some, Option-cases,
  Bool-cases, inl, inr, ◌⊎◌, ◌≢◌, Bytes, codes, All, arith, ◌=ₛ◌, =ₛ_iff, ℤ, pos, ltb_ℤ, ◌≤ℤ◌,
}
use musi_flac.Policy.{
  Any, text, boolean, slice, Anys, no_items, item, Entries, DownloadTransferPolicy,
  default_download_transfer_policy, clamp_int, value_of, capability_object, capability_int,
  error_statuses, or_fallback, parse_refresh_statuses, resume_of, checkpoint_of, configured,
  download_transfer_policy,
}

abbrev pub Between : ℤ → ℤ → ℤ → Type 0
Between low high n = (low ≤ℤ n) × (n ≤ℤ high)

pub record IsBounded (p : DownloadTransferPolicy) : Type 0 where
  pub attempts : Between (pos 1) (pos 8) p.max_attempts
  pub initial_delay : Between (pos 100) (pos 30000) p.initial_retry_delay_ms
  pub max_delay : Between p.initial_retry_delay_ms (pos 120000) p.max_retry_delay_ms
  pub resume : (p.resume_policy ≡ codes "validated") ⊎ (p.resume_policy ≡ codes "none")
  pub checkpoint : p.persistent_checkpoint ≡ true → p.resume_policy ≡ codes "validated"
  pub statuses : All (Between (pos 400) (pos 599)) p.refresh_stream_on_status
  pub refreshes : p.refresh_stream_on_status ≢ []
  pub segments : Between (pos 1) (pos 8) p.max_parallel_segments
  pub downloads : Between (pos 1) (pos 3) p.max_concurrent_downloads

clamp_int-Between : (value low high : ℤ) → low ≤ℤ high → Between low high (clamp_int value low high)
unfolding clamp_int
clamp_int-Between value low high h = ground (arith, h)

module _ {F : Type 0} (round : F → ℤ) (lower trim : Bytes → Bytes) where
  error_statuses-Between :
      (values : Anys F) → All (Between (pos 400) (pos 599)) (error_statuses round lower trim values)
  unfolding error_statuses
  error_statuses-Between no_items = tt
  error_statuses-Between (item raw rest) =
      let status = capability_int round lower trim raw (pos 0) in
      elim (Bool-cases (not (ltb_ℤ status (pos 400)) && not (ltb_ℤ (pos 599) status))) [
        | inl error ↦ rw error (ground (arith, error), error_statuses-Between rest)
        | inr other ↦ rw other (error_statuses-Between rest)
      ]

  abbrev IsRefreshed : List ℤ → Type 0
  IsRefreshed statuses = All (Between (pos 400) (pos 599)) statuses × (statuses ≢ [])

  or_fallback-IsRefreshed :
      (statuses fallback : List ℤ)
      → All (Between (pos 400) (pos 599)) statuses
      → IsRefreshed fallback
      → IsRefreshed (or_fallback round lower trim statuses fallback)
  or_fallback-IsRefreshed [] fallback h f = f
  or_fallback-IsRefreshed (s ∷ rest) fallback h f = (h, λ e. cc)

  parse-IsRefreshed :
      (v : Any F) (fallback : List ℤ)
      → IsRefreshed fallback
      → IsRefreshed (parse_refresh_statuses round lower trim v fallback)
  unfolding parse_refresh_statuses
  parse-IsRefreshed (slice values) fallback f =
      or_fallback-IsRefreshed (error_statuses round lower trim values) fallback
        (error_statuses-Between values) f
  parse-IsRefreshed _ fallback f = f

  resume_of-cases :
      (v : Any F)
      → let r = resume_of round lower trim v (codes "none") in
        (r ≡ codes "validated") ⊎ (r ≡ codes "none")
  unfolding resume_of
  resume_of-cases (text value) =
      let r = lower (trim value) in
      let validated = =ₛ_iff r (codes "validated") in
      let plain = =ₛ_iff r (codes "none") in
      elim (Bool-cases (r =ₛ codes "validated")) [
        | inl v ↦ rw v (inl (validated.0 v))
        | inr v ↦ elim (Bool-cases (r =ₛ codes "none")) [
          | inl n ↦ rw v (rw n (inr (plain.0 n)))
          | inr n ↦ rw v (rw n (inr refl))
        ]
      ]
  resume_of-cases _ = inr refl

  checkpoint_of-validated :
      (v : Any F) (resume : Bytes)
      → checkpoint_of round lower trim v resume false ≡ true
      → resume ≡ codes "validated"
  unfolding checkpoint_of
  checkpoint_of-validated (boolean b) resume h =
      (=ₛ_iff resume (codes "validated")).0 (ground (arith, h))
  checkpoint_of-validated _ resume h = cc

  default-IsBounded : IsBounded default_download_transfer_policy
  unfolding default_download_transfer_policy
  default-IsBounded = record {
    attempts = omega arith;
    initial_delay = omega arith;
    max_delay = omega arith;
    resume = inr refl;
    checkpoint = λ e. cc;
    statuses = omega arith;
    refreshes = λ e. cc;
    segments = omega arith;
    downloads = omega arith;
  }

  policy_default :
      (capabilities : Entries F)
      → capability_object capabilities (codes "downloadTransfer") ≡ none
      → download_transfer_policy round lower trim capabilities ≡ default_download_transfer_policy
  unfolding download_transfer_policy
  policy_default capabilities missing = ground (arith, missing)

  policy_configured :
      (capabilities config : Entries F)
      → capability_object capabilities (codes "downloadTransfer") ≡ some config
      → download_transfer_policy round lower trim capabilities
        ≡ configured round lower trim config default_download_transfer_policy
  unfolding download_transfer_policy
  policy_configured capabilities config there = ground (arith, there)

  configured-IsBounded :
      (config : Entries F)
      → IsBounded (configured round lower trim config default_download_transfer_policy)
  unfolding configured default_download_transfer_policy
  configured-IsBounded config =
      let ranged = λ (key : Bytes) (fallback low high : ℤ) (h : low ≤ℤ high).
        clamp_int-Between (capability_int round lower trim (value_of key config) fallback) low high
          h in
      let initial =
        ranged (codes "initialRetryDelayMs") (pos 500) (pos 100) (pos 30000) (omega arith) in
      let refresh =
        parse-IsRefreshed (value_of (codes "refreshStreamOnStatus") config) (pos 401 ∷ pos 403 ∷ [])
          (omega arith, λ e. cc) in
      record {
        attempts = ranged (codes "maxAttempts") (pos 3) (pos 1) (pos 8) (omega arith);
        initial_delay = initial;
        max_delay =
            ranged (codes "maxRetryDelayMs") (pos 8000) _ (pos 120000) (omega (arith, initial.1));
        resume = resume_of-cases (value_of (codes "resumePolicy") config);
        checkpoint =
            checkpoint_of-validated (value_of (codes "persistentCheckpoint") config)
              (resume_of round lower trim (value_of (codes "resumePolicy") config) (codes "none"));
        statuses = refresh.0;
        refreshes = refresh.1;
        segments = ranged (codes "maxParallelSegments") (pos 3) (pos 1) (pos 8) (omega arith);
        downloads = ranged (codes "maxConcurrentDownloads") (pos 3) (pos 1) (pos 3) (omega arith);
      }

  -- Whatever the capabilities of a manifest hold, of any types, the policy has 1 to 8 attempts, delays of
  -- at least 100 ms, at most 30 s first and 120 s at last, the last no shorter than the first, `none` or
  -- `validated` for resuming, a checkpoint only with `validated`, statuses from 400 to 599, at least one,
  -- 1 to 8 parallel segments, and 1 to 3 downloads at once.
  pub download_transfer_policy-IsBounded :
      (capabilities : Entries F)
      → IsBounded (download_transfer_policy round lower trim capabilities)
  download_transfer_policy-IsBounded capabilities =
      elim (Option-cases (capability_object capabilities (codes "downloadTransfer"))) [
        | inl missing ↦
            subst IsBounded (sym (policy_default capabilities missing)) default-IsBounded
        | inr (config, there) ↦
            subst IsBounded (sym (policy_configured capabilities config there))
              (configured-IsBounded config)
      ]
