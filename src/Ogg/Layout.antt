-- ===== src/Ogg/Layout.antt =====
-- The pages that `paginateOggPackets` of go_backend/ogg_edit.go makes, one by one.
use musi_flac.Prelude.{
  ℕ, zero, suc, ◌+◌, ◌%◌, ◌^◌, ◌≤◌, ◌≡◌, refl, sym, ap, Bool, false, List, [], ◌∷◌, arith, ◌==◌,
  if◌then◌else◌, length, take, drop, All, All-take, All-drop, length-append, length-take, subst,
  Bytes, IsByte, IsU32,
}
use musi_flac.Ogg.Page.{OggEditPage, sum}
use musi_flac.Ogg.PageTrip.{IsPage}
use musi_flac.Ogg.Packets.{
  Lacing, lace_all, values, join, last_is_full, page_of, paginate_loop, paginate_ogg_packets,
}
use musi_flac.Ogg.Fold.{IsLacing}
use musi_flac.Ogg.PacketTrip.{lace_all-lacings}

-- Whether the last segment of a page continues in the next page.
abbrev pub ends_full : Bytes → Bool
ends_full [] = false
ends_full (s ∷ []) = s == 255
ends_full (s ∷ s' ∷ ss) = ends_full (s' ∷ ss)

-- Pages of one stream that are numbered from `seq` on, modulo 2 ^ 32, each marked as continued
-- exactly when the page before it (for the first one, `continued`) ends inside a packet.
unfoldable pub IsRun : ℕ → ℕ → Bool → List OggEditPage → Type 0
IsRun serial seq continued [] = Unit
IsRun serial seq continued (p ∷ ps) =
    IsPage p
    × (p.serial ≡ serial)
    × (p.seq ≡ seq)
    × (p.granule ≡ 0)
    × (p.header_type ≡ (if continued then 1 else 0))
    × IsRun serial ((seq + 1) % 2 ^ 32) (ends_full p.segments) ps

length-values : (ls : List Lacing) → length (values ls) ≡ length ls
unfolding values
length-values [] = refl
length-values (l ∷ ls) = ap suc (length-values ls)

values-IsByte : (ls : List Lacing) → All IsLacing ls → All IsByte (values ls)
unfolding values
values-IsByte [] v = tt
values-IsByte (l ∷ ls) v = (v.0.value_in, values-IsByte ls v.1)

sum-values : (ls : List Lacing) → All IsLacing ls → sum (values ls) ≡ length (join ls)
unfolding values join sum
sum-values [] v = refl
sum-values (l ∷ ls) v =
    omega (arith, v.0.value_is, sum-values ls v.1, length-append l.bytes (join ls))

ends_full-values : (ls : List Lacing) → ends_full (values ls) ≡ last_is_full ls
unfolding values last_is_full
ends_full-values [] = refl
ends_full-values (l ∷ []) = refl
ends_full-values (l ∷ l' ∷ ls) = ends_full-values (l' ∷ ls)

pub page_of-IsPage :
    (serial seq : ℕ) (continued : Bool) (ls : List Lacing)
    → IsU32 serial
    → IsU32 seq
    → length ls ≤ 255
    → All IsLacing ls
    → IsPage (page_of serial seq continued ls)
unfolding page_of
page_of-IsPage serial seq continued ls hs hq short v = record {
  header_type_in = ground arith;
  granule_in = omega arith;
  serial_in = hs;
  seq_in = hq;
  segments_in = values-IsByte ls v;
  segments_size = omega (arith, length-values ls);
  payload_size = sum-values ls v;
}

paginate_loop-IsRun :
    (fuel serial seq : ℕ) (continued : Bool) (ls : List Lacing)
    → IsU32 serial
    → IsU32 seq
    → All IsLacing ls
    → IsRun serial seq continued (paginate_loop fuel serial seq continued ls)
unfolding paginate_loop IsRun page_of
paginate_loop-IsRun zero serial seq continued ls hs hq v = tt
paginate_loop-IsRun (suc fuel) serial seq continued [] hs hq v = tt
paginate_loop-IsRun (suc fuel) serial seq continued (l ∷ ls) hs hq v =
    let now = take 255 (l ∷ ls) in
    let seq' = (seq + 1) % 2 ^ 32 in
    (
      page_of-IsPage serial seq continued now hs hq (omega (arith, length-take 255 (l ∷ ls)))
          (All-take IsLacing 255 (l ∷ ls) v),
      refl,
      refl,
      refl,
      refl,
      subst
          (λ b.
            IsRun serial seq' b
              (paginate_loop fuel serial seq' (last_is_full now) (drop 255 (l ∷ ls))))
          (sym (ends_full-values now))
          (paginate_loop-IsRun fuel serial seq' (last_is_full now) (drop 255 (l ∷ ls)) hs
            (omega arith) (All-drop IsLacing 255 (l ∷ ls) v)),
    )

-- For 32-bit numbers, every page that packets are laid into is one that `serialize` can write, of
-- the stream's serial number and granule 0; the pages are numbered on from the first, and one is
-- marked as continued exactly when the page before it ends inside a packet.
pub paginate-IsRun :
    (packets : List Bytes) (serial seq : ℕ)
    → IsU32 serial
    → IsU32 seq
    → IsRun serial seq false (paginate_ogg_packets packets serial seq)
unfolding paginate_ogg_packets
paginate-IsRun packets serial seq hs hq =
    paginate_loop-IsRun _ serial seq false (lace_all packets) hs hq (lace_all-lacings packets)
