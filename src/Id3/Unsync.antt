-- ===== src/Id3/Unsync.antt =====
-- `id3UnsyncReader` of go_backend/id3_reader.go against `removeUnsync` of go_backend/audio_metadata.go.
use musi_flac.Prelude.{
  ℕ, zero, suc, ◌+◌, ◌≡◌, refl, sym, ap, ◌∙◌, Bool, true, false, ◌&&◌, List, [], ◌∷◌, ◌++◌, arith,
  ◌==◌, if◌then◌else◌, take, drop, Bytes, inl, inr, Bool-cases, subst,
}
use musi_flac.Id3.{remove_unsync}

pub record UnsyncReader : Type 0 where
  pub source : Bytes
  pub after_ff : Bool

-- `Read` into a slice of `n` bytes: what it stores there.
unfoldable pub read_loop : ℕ → Bool → Bytes → Bytes × UnsyncReader
read_loop zero after_ff [] = ([], record { source = []; after_ff = after_ff })
read_loop (suc n) after_ff [] = ([], record { source = []; after_ff = after_ff })
read_loop zero after_ff (value ∷ rest) = ([], record { source = value ∷ rest; after_ff = after_ff })
read_loop (suc n) after_ff (value ∷ rest) =
    let skip = read_loop (suc n) false rest in
    let (stored, reader) = read_loop n (value == 255) rest in
    if after_ff && value == 0 then skip else (value ∷ stored, reader)

unfoldable pub read : ℕ → UnsyncReader → Bytes × UnsyncReader
read n reader = read_loop n reader.after_ff reader.source

-- Calls of `Read` with slices of these lengths, one after another.
unfoldable pub reads : List ℕ → UnsyncReader → Bytes
reads [] reader = []
reads (n ∷ sizes) reader = let (stored, reader') = read n reader in stored ++ reads sizes reader'

-- What a reader has still to give.
pending : Bool → Bytes → Bytes
pending after_ff [] = []
pending after_ff (value ∷ rest) =
    if after_ff && value == 0 then remove_unsync rest else remove_unsync (value ∷ rest)

remove_unsync-cons : (b : ℕ) (rest : Bytes) → remove_unsync (b ∷ rest) ≡ b ∷ pending (b == 255) rest
unfolding remove_unsync pending
remove_unsync-cons b [] = refl
remove_unsync-cons b (c ∷ rest) = refl

pending-false : (bytes : Bytes) → pending false bytes ≡ remove_unsync bytes
unfolding pending remove_unsync
pending-false [] = refl
pending-false (b ∷ rest) = refl

pending_skip :
    (after_ff : Bool) (value : ℕ) (rest : Bytes)
    → (after_ff && value == 0) ≡ true
    → pending after_ff (value ∷ rest) ≡ remove_unsync rest
unfolding pending
pending_skip after_ff value rest skip = rw skip refl

pending_keep :
    (after_ff : Bool) (value : ℕ) (rest : Bytes)
    → (after_ff && value == 0) ≡ false
    → pending after_ff (value ∷ rest) ≡ remove_unsync (value ∷ rest)
unfolding pending
pending_keep after_ff value rest keep = rw keep refl

abbrev left_of : UnsyncReader → Bytes
left_of reader = pending reader.after_ff reader.source

take-nil : (n : ℕ) → take {A = ℕ} n [] ≡ []
take-nil zero = refl
take-nil (suc n) = refl

abbrev IsRead : ℕ → Bytes × UnsyncReader → Bytes → Type 0
IsRead n (stored, reader) bytes = (stored ≡ take n bytes) × (left_of reader ≡ drop n bytes)

read_loop-IsRead :
    (n : ℕ) (after_ff : Bool) (source : Bytes)
    → IsRead n (read_loop n after_ff source) (pending after_ff source)
unfolding read_loop
read_loop-IsRead zero after_ff [] = (refl, refl)
read_loop-IsRead (suc n) after_ff [] = unfold pending in (refl, refl)
read_loop-IsRead zero after_ff (value ∷ rest) = (refl, refl)
read_loop-IsRead (suc n) after_ff (value ∷ rest) = elim (Bool-cases (after_ff && value == 0)) [
  | inl skip ↦ rw skip (
      subst (IsRead (suc n) (read_loop (suc n) false rest))
        (pending-false rest ∙ sym (pending_skip after_ff value rest skip))
        (read_loop-IsRead (suc n) false rest))
  | inr keep ↦
      let (stored, reader) = read_loop n (value == 255) rest in
      let ih = read_loop-IsRead n (value == 255) rest in
      rw keep (
        subst (IsRead (suc n) (value ∷ stored, reader))
          (sym (pending_keep after_ff value rest keep ∙ remove_unsync-cons value rest))
          (ap (◌∷◌ value) ih.0, ih.1))
]

unfoldable pub total : List ℕ → ℕ
total [] = 0
total (n ∷ sizes) = n + total sizes

take-add : (m n : ℕ) (bytes : Bytes) → take (m + n) bytes ≡ take m bytes ++ take n (drop m bytes)
take-add zero n bytes = ap (λ k. take k bytes) (omega arith)
take-add (suc m) n [] = take-nil (suc m + n) ∙ sym (take-nil n)
take-add (suc m) n (b ∷ bytes) =
    ap (λ k. take k (b ∷ bytes)) {y = suc (m + n)} (omega arith) ∙ ap (◌∷◌ b) (take-add m n bytes)

reads-take :
    (sizes : List ℕ) (reader : UnsyncReader)
    → reads sizes reader ≡ take (total sizes) (left_of reader)
unfolding reads read total
reads-take [] reader = refl
reads-take (n ∷ sizes) reader =
    let (stored, reader') = read_loop n reader.after_ff reader.source in
    let one = read_loop-IsRead n reader.after_ff reader.source in
    ap (λ bytes. stored ++ bytes) (reads-take sizes reader' ∙ ap (take (total sizes)) one.1)
    ∙ ap (λ bytes. bytes ++ take (total sizes) (drop n (left_of reader))) one.0
    ∙ sym (take-add n (total sizes) (left_of reader))

-- Reads of any lengths from a new `id3UnsyncReader` give the first bytes of what `removeUnsync` makes of
-- its whole source, as many as the lengths add up to.
pub reads-remove_unsync :
    (sizes : List ℕ) (source : Bytes)
    → reads sizes (record { source = source; after_ff = false })
      ≡ take (total sizes) (remove_unsync source)
reads-remove_unsync sizes source =
    reads-take sizes (record { source = source; after_ff = false })
    ∙ ap (take (total sizes)) (pending-false source)
