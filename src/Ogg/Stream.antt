-- ===== src/Ogg/Stream.antt =====
-- Streams of pages: the loops of go_backend/ogg_edit.go that read pages one by one, on a file that
-- is a sequence of pages.
use musi_flac.Prelude.{
  ℕ, zero, suc, ◌+◌, ◌%◌, ◌^◌, ◌≤◌, ◌<◌, ◌≡◌, refl, sym, ap, ◌∙◌, List, [], ◌∷◌, ◌++◌, arith,
  length, All, All-append, length-append, append_assoc, append-nil, IsU32, ok, err,
}
use musi_flac.Ogg.Page.{
  OggEditPage, eof, read_full, read_header, read_next_ogg_edit_page, serialize, byte_size,
}
use musi_flac.Ogg.PageTrip.{IsPage, read-serialize, length-serialize}
use musi_flac.Ogg.Edit.{serialize_pages, renumber_loop, read_all_loop, read_all_ogg_edit_pages}

-- A page of the stream with this serial number.
pub record IsPageOf (serial : ℕ) (p : OggEditPage) : Type 0 where
  pub page : IsPage p
  pub serial_is : p.serial ≡ serial

pub read-nil : read_next_ogg_edit_page [] ≡ err eof
unfolding read_next_ogg_edit_page read_header read_full
read-nil = refl

pub serialize_pages-append :
    (ps qs : List OggEditPage)
    → serialize_pages (ps ++ qs) ≡ serialize_pages ps ++ serialize_pages qs
unfolding serialize_pages
serialize_pages-append [] qs = refl
serialize_pages-append (p ∷ ps) qs =
    ap (λ t. serialize p ++ t) (serialize_pages-append ps qs)
    ∙ sym (append_assoc (serialize p) (serialize_pages ps) (serialize_pages qs))

-- A page is more than nothing, so there are no more pages than bytes.
pub length-serialize_pages : (ps : List OggEditPage) → length ps ≤ length (serialize_pages ps)
unfolding serialize_pages byte_size
length-serialize_pages [] = omega arith
length-serialize_pages (p ∷ ps) = omega (
  arith,
  length-serialize_pages ps,
  length-append (serialize p) (serialize_pages ps),
  length-serialize p,
)

-- The same pages, numbered on from `seq`.
unfoldable pub renumbered : ℕ → List OggEditPage → List OggEditPage
renumbered seq [] = []
renumbered seq (p ∷ ps) = record p { seq = seq } ∷ renumbered ((seq + 1) % 2 ^ 32) ps

pub renumbered-IsPageOf :
    (serial seq : ℕ) (ps : List OggEditPage)
    → IsU32 seq
    → All (IsPageOf serial) ps
    → All (IsPageOf serial) (renumbered seq ps)
unfolding renumbered
renumbered-IsPageOf serial seq [] h v = tt
renumbered-IsPageOf serial seq (p ∷ ps) h v = (
  record {
    page = record {
      header_type_in = v.0.page.header_type_in;
      granule_in = v.0.page.granule_in;
      serial_in = v.0.page.serial_in;
      seq_in = h;
      segments_in = v.0.page.segments_in;
      segments_size = v.0.page.segments_size;
      payload_size = v.0.page.payload_size;
    };
    serial_is = v.0.serial_is;
  },
  renumbered-IsPageOf serial ((seq + 1) % 2 ^ 32) ps (omega arith) v.1,
)

-- The renumbering loop writes every page of the stream again, with its new number.
pub renumber_loop-renumbered :
    (fuel serial seq : ℕ) (ps : List OggEditPage)
    → length ps < fuel
    → All (IsPageOf serial) ps
    → renumber_loop fuel serial seq (serialize_pages ps) ≡ ok (serialize_pages (renumbered seq ps))
unfolding renumbered renumber_loop serialize_pages
renumber_loop-renumbered zero serial seq ps h v = absurd (omega arith)
renumber_loop-renumbered (suc fuel) serial seq [] h v = ground (arith, read-nil)
renumber_loop-renumbered (suc fuel) serial seq (p ∷ ps) h v = ground (
  arith,
  read-serialize p (serialize_pages ps) v.0.page,
  v.0.serial_is,
  renumber_loop-renumbered fuel serial ((seq + 1) % 2 ^ 32) ps (omega arith) v.1,
)

-- Reading all pages gives the pages, where there is one at least.
pub read_all_loop-serialize_pages :
    (fuel serial : ℕ) (before ps : List OggEditPage)
    → length ps < fuel
    → 0 < length before + length ps
    → All (IsPageOf serial) before
    → All (IsPageOf serial) ps
    → read_all_loop fuel before (serialize_pages ps) ≡ ok (before ++ ps)
unfolding read_all_loop serialize_pages
read_all_loop-serialize_pages zero serial before ps h some u v = absurd (omega arith)
read_all_loop-serialize_pages (suc fuel) serial before [] h some u v =
    ground (arith, read-nil, append-nil before)
read_all_loop-serialize_pages (suc fuel) serial [] (p ∷ ps) h some u v = ground (
  arith,
  read-serialize p (serialize_pages ps) v.0.page,
  read_all_loop-serialize_pages fuel serial (p ∷ []) ps (omega arith) (omega arith) (v.0, tt) v.1,
)
read_all_loop-serialize_pages (suc fuel) serial (q ∷ qs) (p ∷ ps) h some u v = ground (
  arith,
  read-serialize p (serialize_pages ps) v.0.page,
  v.0.serial_is,
  u.0.serial_is,
  append_assoc (q ∷ qs) (p ∷ []) ps,
  read_all_loop-serialize_pages fuel serial (q ∷ (qs ++ (p ∷ []))) ps (omega arith) (omega arith)
      (u.0, All-append (IsPageOf serial) qs (p ∷ []) u.1 (v.0, tt)) v.1,
)

-- One page or more of one stream, written one after the other, are read back as they are.
pub read_back-serialize_pages :
    (serial : ℕ) (ps : List OggEditPage)
    → 0 < length ps
    → All (IsPageOf serial) ps
    → read_all_ogg_edit_pages (serialize_pages ps) ≡ ok ps
unfolding read_all_ogg_edit_pages
read_back-serialize_pages serial ps some v =
    read_all_loop-serialize_pages (suc (length (serialize_pages ps))) serial [] ps
      (omega (arith, length-serialize_pages ps)) (omega arith) tt v
