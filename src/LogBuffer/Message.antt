-- ===== src/LogBuffer/Message.antt =====
-- `truncateLogMessage` of go_backend/logbuffer.go, and utf8.ValidString, which it calls.
use musi_flac.Prelude.{
  ℕ, zero, suc, ◌+◌, ◌≤◌, ◌<◌, ◌≡◌, refl, ◌⊎◌, inl, inr, Bool, true, false, ◌&&◌, [], ◌∷◌, ◌++◌,
  arith, ltb, leb, ◌==◌, if◌then◌else◌, Bool-cases, length, take, length-append, length-take, ap,
  ltb→leb, Bytes, codes, sym, subst,
}
use native.Mathlib.Decide.{dec_le}

abbrev pub max_log_message_length : ℕ
max_log_message_length = 4000

-- What may follow a byte that starts a sequence: how many bytes, and the range of the first.
-- `none` of them follow an ASCII byte; `bad` starts no sequence.
pub data Lead : Type 0 where
  follow : ℕ → ℕ → ℕ → Lead
  bad : Lead

lead : ℕ → Lead
lead b =
    if ltb b 0x80
    then follow 0 0x80 0xbf
    else if ltb b 0xc2
    then bad
    else if ltb b 0xe0
    then follow 1 0x80 0xbf
    else if b == 0xe0
    then follow 2 0xa0 0xbf
    else if b == 0xed
    then follow 2 0x80 0x9f
    else if ltb b 0xf0
    then follow 2 0x80 0xbf
    else if b == 0xf0
    then follow 3 0x90 0xbf
    else if ltb b 0xf4
    then follow 3 0x80 0xbf
    else if b == 0xf4
    then follow 3 0x80 0x8f
    else bad

-- `need` bytes of the sequence are to come, the next of them within `lo` and `hi`.
valid_from : ℕ → ℕ → ℕ → Bytes → Bool
unfolding lead
valid_from need lo hi [] = need == 0
valid_from zero lo hi (b ∷ s) = elim (lead b) [
  | follow need lo' hi' ↦ valid_from need lo' hi' s
  | bad ↦ false
]
valid_from (suc need) lo hi (b ∷ s) = leb lo b && leb b hi && valid_from need 0x80 0xbf s

unfoldable pub valid_string : Bytes → Bool
unfolding valid_from
valid_string = valid_from 0 0x80 0xbf

-- The loop: drop the last byte until the text is valid; `n` is its length. No bytes are valid, so
-- the case of `zero` is the loop's end too.
unfoldable pub trim_invalid : ℕ → Bytes → Bytes
trim_invalid zero s = []
trim_invalid (suc n) s =
    let shorter = trim_invalid n s in
    if valid_string (take (suc n) s) then take (suc n) s else shorter

abbrev pub truncated_mark : Bytes
truncated_mark = codes "...[truncated]"

unfoldable pub truncate_log_message : Bytes → Bytes
truncate_log_message message =
    if leb (length message) max_log_message_length
    then message
    else trim_invalid max_log_message_length message ++ truncated_mark

-- `trim_invalid n s` is the longest valid prefix of `s` of at most `n` bytes.
pub record IsLongestValid (n : ℕ) (s prefix : Bytes) : Type 0 where
  pub size : ℕ
  pub prefix_is : prefix ≡ take size s
  pub within : size ≤ n
  pub valid : valid_string prefix ≡ true
  pub longest : (k : ℕ) → size < k → k ≤ n → valid_string (take k s) ≡ false

-- One more byte allowed, and that prefix invalid: the answer stays.
grow-IsLongestValid :
    (n : ℕ) (s p : Bytes)
    → valid_string (take (suc n) s) ≡ false
    → IsLongestValid n s p
    → IsLongestValid (suc n) s p
grow-IsLongestValid n s p wrong h = record {
  size = h.size;
  prefix_is = h.prefix_is;
  within = omega (arith, h.within);
  valid = h.valid;
  longest = λ k lo hi. elim (dec_le k n) [
    | yes below ↦ h.longest k lo below
    | no above ↦
        let e : k ≡ suc n = omega arith in
        subst (λ j. valid_string (take j s) ≡ false) (sym e) wrong
  ];
}

trim_invalid-IsLongestValid : (n : ℕ) (s : Bytes) → IsLongestValid n s (trim_invalid n s)
unfolding trim_invalid
trim_invalid-IsLongestValid zero s = record {
  size = 0;
  prefix_is = refl;
  within = omega arith;
  valid = unfold valid_string in refl;
  longest = λ k lo hi. absurd (omega arith);
}
trim_invalid-IsLongestValid (suc n) s = elim (Bool-cases (valid_string (take (suc n) s))) [
  | inl good ↦ rw good (record {
    size = suc n;
    prefix_is = refl;
    within = omega arith;
    valid = good;
    longest = λ k lo hi. absurd (omega arith);
  })
  | inr wrong ↦ rw wrong (grow-IsLongestValid n s _ wrong (trim_invalid-IsLongestValid n s))
]

length-trim_invalid : (n : ℕ) (s : Bytes) → length (trim_invalid n s) ≤ n
length-trim_invalid n s =
    let h = trim_invalid-IsLongestValid n s in
    omega (arith, ap length h.prefix_is, length-take h.size s, h.within)

-- What `truncateLogMessage` makes of a message.
pub record IsCut (message result : Bytes) : Type 0 where
  pub kept : Bytes
  pub kept-IsLongestValid : IsLongestValid max_log_message_length message kept
  pub result_is : result ≡ kept ++ truncated_mark
  pub result_length : length result ≤ max_log_message_length + 14

-- A message of at most 4000 bytes is kept as it is. Of a longer one the result is its longest
-- prefix of at most 4000 bytes that is valid UTF-8, followed by the mark, 4014 bytes at most.
pub truncate_log_message_cases :
    (message : Bytes)
    → ((length message ≤ max_log_message_length) × (truncate_log_message message ≡ message))
      ⊎ ((max_log_message_length < length message) × IsCut message (truncate_log_message message))
unfolding truncate_log_message
truncate_log_message_cases message = elim (dec_le (length message) max_log_message_length) [
  | yes short ↦ inl (short, ground arith)
  | no long ↦ inr (
    omega arith,
    rw (ltb→leb max_log_message_length (length message) (omega arith)) (record {
      kept = trim_invalid max_log_message_length message;
      kept-IsLongestValid = trim_invalid-IsLongestValid max_log_message_length message;
      result_is = refl;
      result_length = omega (
        arith,
        length-append (trim_invalid max_log_message_length message) truncated_mark,
        length-trim_invalid max_log_message_length message,
      );
    }),
  )
]
