-- ===== src/Policy/Tests.antt =====
-- The policy of go_backend/extension_transfer_policy.go for a manifest whose numbers are out of range.
use musi_flac.Prelude.{ℕ, ◌≡◌, refl, codes, ◌=ₛ◌, pos}
use musi_flac.Policy.{
  number, text, object, Entries, no_entries, entry, DownloadTransferPolicy, clamp_int, entry_of,
  value_of, capability_object, capability_int, configured, default_download_transfer_policy,
  download_transfer_policy,
}
use musi_flac.Policy.Bounds.{IsBounded, download_transfer_policy-IsBounded}

abbrev greedy : Entries ℕ
greedy =
    entry (codes "downloadTransfer")
      (object (
        entry (codes "maxAttempts") (number (pos 99))
          (entry (codes "resumePolicy") (text (codes "validated")) no_entries)))
      no_entries

abbrev policy : DownloadTransferPolicy
policy = download_transfer_policy pos (λ s. s) (λ s. s) greedy

attempts_clamped : policy.max_attempts ≡ pos 8
unfolding download_transfer_policy configured capability_object value_of entry_of capability_int
    clamp_int default_download_transfer_policy ◌=ₛ◌
attempts_clamped = refl

download_transfer_policy-IsBounded_example : IsBounded policy
download_transfer_policy-IsBounded_example =
    download_transfer_policy-IsBounded pos (λ s. s) (λ s. s) greedy
