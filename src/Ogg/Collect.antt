-- ===== src/Ogg/Collect.antt =====
-- The loop of `EditOggFields` in go_backend/ogg_edit.go that reads the header pages.
use musi_flac.Prelude.{
  ℕ, zero, suc, ◌+◌, ◌≡◌, ◌⊎◌, refl, sym, ap, ◌∙◌, inl, inr, List, [], ◌∷◌, ◌++◌, arith, length,
  All, length-append, append_assoc, append-nil, Bytes, Result, ok, Result-cases,
}
use musi_flac.Ogg.Page.{OggEditPage, OggError, header_incomplete, byte_size, serialize}
use musi_flac.Ogg.PageTrip.{read-serialize, length-serialize}
use musi_flac.Ogg.Packets.{assemble_ogg_header_packets}
use musi_flac.Ogg.Edit.{Headers, next_header_page, collect_headers, serialize_pages}
use musi_flac.Ogg.Stream.{IsPageOf, read-nil}

-- The header pages that were taken in front of the audio pages.
pub record IsCollected (count : ℕ) (pages : List OggEditPage) (size : ℕ) (left : List OggEditPage)
    (h : Headers) : Type 0 where
  pub taken : List OggEditPage
  pub audio : List OggEditPage
  pub left_is : left ≡ taken ++ audio
  pub pages_is : h.pages ≡ pages ++ taken
  pub rest_is : h.rest ≡ serialize_pages audio
  pub size_is : h.size ≡ size + length (serialize_pages taken)
  pub last : ℕ
  pub assembled : assemble_ogg_header_packets h.pages count ≡ ok (h.packets, last)

-- A round that ends with a result has the packets already, or goes on to another page.
collect_headers-ok :
    (fuel count serial : ℕ) (pages : List OggEditPage) (size : ℕ) (rest : Bytes) (h : Headers)
    → collect_headers (suc fuel) count serial pages size rest ≡ ok h
    → ((idx : ℕ) × (assemble_ogg_header_packets pages count ≡ ok (h.packets, idx))
        × (h.pages ≡ pages)
        × (h.size ≡ size)
        × (h.rest ≡ rest))
      ⊎ (next_header_page serial pages size rest (collect_headers fuel count serial) ≡ ok h)
unfolding collect_headers
collect_headers-ok fuel count serial pages size rest h e =
    elim (Result-cases (assemble_ogg_header_packets pages count)) [
      | inl ((packets, idx), a) ↦ inl (idx, ground arith, ground arith, ground arith, ground arith)
      | inr (header_incomplete, a) ↦ inr (ground arith)
      | inr (x, a) ↦ absurd (ground arith)
    ]

next_header_page-nil :
    (serial : ℕ) (pages : List OggEditPage) (size : ℕ)
    (again : List OggEditPage → ℕ → Bytes → Result OggError Headers) (h : Headers)
    → ¬ (next_header_page serial pages size (serialize_pages []) again ≡ ok h)
unfolding next_header_page serialize_pages
next_header_page-nil serial pages size again h e = ground (arith, read-nil)

next_header_page-cons :
    (serial : ℕ) (pages : List OggEditPage) (size : ℕ) (p : OggEditPage) (ps : List OggEditPage)
    (again : List OggEditPage → ℕ → Bytes → Result OggError Headers) (h : Headers)
    → IsPageOf serial p
    → next_header_page serial pages size (serialize_pages (p ∷ ps)) again ≡ ok h
    → again (pages ++ (p ∷ [])) (size + byte_size p) (serialize_pages ps) ≡ ok h
unfolding next_header_page serialize_pages
next_header_page-cons serial pages size p ps again h v e =
    ground (arith, read-serialize p (serialize_pages ps) v.page, v.serial_is)

-- The loop ends here: no page is taken.
IsCollected-nil :
    (count : ℕ) (pages : List OggEditPage) (size : ℕ) (left : List OggEditPage) (h : Headers)
    → (idx : ℕ) × (assemble_ogg_header_packets pages count ≡ ok (h.packets, idx))
      × (h.pages ≡ pages)
      × (h.size ≡ size)
      × (h.rest ≡ serialize_pages left)
    → IsCollected count pages size left h
unfolding serialize_pages
IsCollected-nil count pages size left h (idx, a, pages-is, size-is, rest-is) = record {
  taken = [];
  audio = left;
  left_is = refl;
  pages_is = pages-is ∙ sym (append-nil pages);
  rest_is = rest-is;
  size_is = omega arith;
  last = idx;
  assembled = rw pages-is a;
}

IsCollected-cons :
    (count : ℕ) (pages : List OggEditPage) (size : ℕ) (p : OggEditPage) (ps : List OggEditPage)
    (h : Headers)
    → IsCollected count (pages ++ (p ∷ [])) (size + byte_size p) ps h
    → IsCollected count pages size (p ∷ ps) h
unfolding serialize_pages
IsCollected-cons count pages size p ps h c = record {
  taken = p ∷ c.taken;
  audio = c.audio;
  left_is = ap (◌∷◌ p) c.left_is;
  pages_is = c.pages_is ∙ append_assoc pages (p ∷ []) c.taken;
  rest_is = c.rest_is;
  size_is =
      omega (
        arith,
        c.size_is,
        length-append (serialize p) (serialize_pages c.taken),
        length-serialize p,
      );
  last = c.last;
  assembled = c.assembled;
}

-- On a file of pages of one stream the loop takes some of them, which hold the header packets.
pub collect_headers-IsCollected :
    (fuel count serial : ℕ) (pages : List OggEditPage) (size : ℕ) (left : List OggEditPage)
    (h : Headers)
    → All (IsPageOf serial) left
    → collect_headers fuel count serial pages size (serialize_pages left) ≡ ok h
    → IsCollected count pages size left h
collect_headers-IsCollected zero count serial pages size left h v e =
    absurd (unfold collect_headers in cc)
collect_headers-IsCollected (suc fuel) count serial pages size [] h v e =
    elim (collect_headers-ok fuel count serial pages size (serialize_pages []) h e) [
      | inl found ↦ IsCollected-nil count pages size [] h found
      | inr goes ↦ absurd (next_header_page-nil serial pages size _ h goes)
    ]
collect_headers-IsCollected (suc fuel) count serial pages size (p ∷ ps) h v e =
    elim (collect_headers-ok fuel count serial pages size (serialize_pages (p ∷ ps)) h e) [
      | inl found ↦ IsCollected-nil count pages size (p ∷ ps) h found
      | inr goes ↦ IsCollected-cons count pages size p ps h (
          collect_headers-IsCollected fuel count serial (pages ++ (p ∷ [])) (size + byte_size p) ps
            h v.1 (next_header_page-cons serial pages size p ps _ h v.0 goes))
    ]
