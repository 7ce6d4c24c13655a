-- ===== src/Policy.antt =====
-- The transfer policy of an extension: go_backend/extension_transfer_policy.go. A duration is a number of
-- nanoseconds.
pub mod Bounds
mod Tests
use musi_flac.Prelude.{
  ℕ, ◌*◌, Bool, true, false, not, ◌&&◌, ◌||◌, List, [], ◌∷◌, Option, none, some, if◌then◌else◌,
  Bytes, codes, ◌=ₛ◌, ℤ, pos, negsuc, ltb_ℤ,
}
use musi_flac.Progress.State.{◌==ℤ◌}

mutual
  -- A value of type `any` of a manifest: an integer, a float64, a text, a Boolean, a slice, a map, or
  -- another. `F` is float64.
  pub data Any (F : Type 0) : Type 0 where
    number : ℤ → Any F
    float : F → Any F
    text : Bytes → Any F
    boolean : Bool → Any F
    slice : Anys F → Any F
    object : Entries F → Any F
    nil : Any F

  pub data Anys (F : Type 0) : Type 0 where
    no_items : Anys F
    item : Any F → Anys F → Anys F

  pub data Entries (F : Type 0) : Type 0 where
    no_entries : Entries F
    entry : Bytes → Any F → Entries F → Entries F

-- The policy; the statuses that are `true` in the map are a list. The delays are in milliseconds here,
-- and a duration of so many milliseconds in the code.
pub record DownloadTransferPolicy : Type 0 where
  pub max_attempts : ℤ
  pub initial_retry_delay_ms : ℤ
  pub max_retry_delay_ms : ℤ
  pub resume_policy : Bytes
  pub persistent_checkpoint : Bool
  pub refresh_stream_on_status : List ℤ
  pub max_parallel_segments : ℤ
  pub max_concurrent_downloads : ℤ

unfoldable pub default_download_transfer_policy : DownloadTransferPolicy
default_download_transfer_policy = record {
  max_attempts = pos 3;
  initial_retry_delay_ms = pos 500;
  max_retry_delay_ms = pos 8000;
  resume_policy = codes "none";
  persistent_checkpoint = false;
  refresh_stream_on_status = pos 401 ∷ pos 403 ∷ [];
  max_parallel_segments = pos 3;
  max_concurrent_downloads = pos 3;
}

unfoldable pub clamp_int : ℤ → ℤ → ℤ → ℤ
clamp_int value minimum maximum =
    if ltb_ℤ value minimum then minimum else if ltb_ℤ maximum value then maximum else value

module _ {F : Type 0} where
  unfoldable pub entry_of : Bytes → Entries F → Option (Any F)
  entry_of key no_entries = none
  entry_of key (entry k v rest) = if k =ₛ key then some v else entry_of key rest

  -- A key that is not there reads as nil.
  unfoldable pub value_of : Bytes → Entries F → Any F
  value_of key config = elim (entry_of key config) [ none ↦ nil | some v ↦ v ]

  -- `capabilityObject`; a map that is nil has no entries.
  unfoldable pub capability_object : Entries F → Bytes → Option (Entries F)
  capability_object capabilities key = elim (entry_of key capabilities) [
    | some (object config) ↦ some config
    | _ ↦ none
  ]

  -- `math.Round` and the conversion of a float64 to int are `round`; `trim` and `lower` are TrimSpace and
  -- ToLower of package strings.
  module _ (round : F → ℤ) (lower trim : Bytes → Bytes) where
    unfoldable pub capability_int : Any F → ℤ → ℤ
    capability_int (number n) fallback = n
    capability_int (float x) fallback = round x
    capability_int _ fallback = fallback

    -- The statuses of a list that are errors of HTTP; one that comes twice stands twice.
    unfoldable pub error_statuses : Anys F → List ℤ
    error_statuses no_items = []
    error_statuses (item raw rest) =
        let status = capability_int raw (pos 0) in
        let later = error_statuses rest in
        if not (ltb_ℤ status (pos 400)) && not (ltb_ℤ (pos 599) status)
        then status ∷ later
        else later

    abbrev pub or_fallback : List ℤ → List ℤ → List ℤ
    or_fallback [] fallback = fallback
    or_fallback (status ∷ rest) fallback = status ∷ rest

    unfoldable pub parse_refresh_statuses : Any F → List ℤ → List ℤ
    parse_refresh_statuses (slice values) fallback = or_fallback (error_statuses values) fallback
    parse_refresh_statuses _ fallback = fallback

    unfoldable pub resume_of : Any F → Bytes → Bytes
    resume_of (text value) fallback =
        let resume = lower (trim value) in
        if (resume =ₛ codes "validated") || (resume =ₛ codes "none") then resume else fallback
    resume_of _ fallback = fallback

    unfoldable pub checkpoint_of : Any F → Bytes → Bool → Bool
    checkpoint_of (boolean value) resume fallback = value && (resume =ₛ codes "validated")
    checkpoint_of _ resume fallback = fallback

    unfoldable pub configured : Entries F → DownloadTransferPolicy → DownloadTransferPolicy
    configured config policy =
        let clamped = λ (key : Bytes) (fallback minimum maximum : ℤ).
          clamp_int (capability_int (value_of key config) fallback) minimum maximum in
        let initial =
          clamped (codes "initialRetryDelayMs") policy.initial_retry_delay_ms (pos 100)
            (pos 30000) in
        let resume = resume_of (value_of (codes "resumePolicy") config) policy.resume_policy in
        record {
          max_attempts = clamped (codes "maxAttempts") policy.max_attempts (pos 1) (pos 8);
          initial_retry_delay_ms = initial;
          max_retry_delay_ms =
              clamped (codes "maxRetryDelayMs") policy.max_retry_delay_ms initial (pos 120000);
          resume_policy = resume;
          persistent_checkpoint =
              checkpoint_of (value_of (codes "persistentCheckpoint") config) resume
                policy.persistent_checkpoint;
          refresh_stream_on_status =
              parse_refresh_statuses (value_of (codes "refreshStreamOnStatus") config)
                policy.refresh_stream_on_status;
          max_parallel_segments =
              clamped (codes "maxParallelSegments") policy.max_parallel_segments (pos 1) (pos 8);
          max_concurrent_downloads =
              clamped (codes "maxConcurrentDownloads") policy.max_concurrent_downloads (pos 1)
                (pos 3);
        }

    -- `DownloadTransferPolicy` of a manifest with these capabilities.
    unfoldable pub download_transfer_policy : Entries F → DownloadTransferPolicy
    download_transfer_policy capabilities =
        elim (capability_object capabilities (codes "downloadTransfer")) [
          | none ↦ default_download_transfer_policy
          | some config ↦ configured config default_download_transfer_policy
        ]
