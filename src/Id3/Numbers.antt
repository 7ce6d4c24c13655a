-- ===== src/Id3/Numbers.antt =====
-- The numbers of ID3v2 tags in go_backend/wav_aiff.go.
use musi_flac.Prelude.{ℕ, ◌<◌, ◌^◌, ◌≡◌, arith}
use musi_flac.Id3.{synchsafe_encode, synchsafe_decode}

-- What `synchsafeDecode` reads of what `synchsafeEncode` writes, for a number of up to 28 bits.
pub decode-encode : (n : ℕ) → n < 2 ^ 28 → synchsafe_decode (synchsafe_encode n) ≡ n
unfolding synchsafe_decode synchsafe_encode
decode-encode n h = ground arith
