-- ===== src/Id3/Plan.antt =====
-- What the parts of an edit of go_backend/mp3_id3_write.go leave of the frames of each id.
use musi_flac.Prelude.{
  ◌≡◌, refl, sym, ap, ◌∙◌, subst, Bool, true, false, not, ◌&&◌, ◌||◌, List, [], ◌∷◌, ◌++◌,
  Bool-cases, inl, inr, arith, if◌then◌else◌, Bytes, codes, ◌=ₛ◌, =ₛ_iff, append_assoc,
}
use musi_flac.Progress.Delta.{is_listed}
use musi_flac.Id3.{Frame}
use musi_flac.Id3.Text.{Packages}
use musi_flac.Id3.Edit.{
  Change, all_ids, all_descriptions, all_frames, is_dropped, kept_frames, edited_frames,
}

-- The frames of one id, in order.
unfoldable pub of_id : Bytes → List Frame → List Frame
of_id id [] = []
of_id id (frame ∷ frames) =
    let rest = of_id id frames in if frame.id =ₛ id then frame ∷ rest else rest

pub of_id-append :
    (id : Bytes) (xs ys : List Frame) → of_id id (xs ++ ys) ≡ of_id id xs ++ of_id id ys
unfolding of_id
of_id-append id [] ys = refl
of_id-append id (x ∷ xs) ys = ground (arith, of_id-append id xs ys)

pub is_listed-append :
    (id : Bytes) (xs ys : List Bytes)
    → is_listed id (xs ++ ys) ≡ (is_listed id xs || is_listed id ys)
unfolding is_listed
is_listed-append id [] ys = refl
is_listed-append id (x ∷ xs) ys = ground (arith, is_listed-append id xs ys)

module _ (go : Packages) where
  -- What is kept of the frames of an id other than TXXX.
  of_id-kept :
      (id : Bytes) (ids descriptions : List Bytes) (frames : List Frame)
      → (id =ₛ codes "TXXX") ≡ false
      → of_id id (kept_frames go ids descriptions frames)
        ≡ (if is_listed id ids then [] else of_id id frames)
  unfolding of_id kept_frames is_dropped
  of_id-kept id ids descriptions [] other = ground arith
  of_id-kept id ids descriptions (frame ∷ frames) other = ground (
    arith,
    other,
    of_id-kept id ids descriptions frames other,
    =ₛ_iff frame.id id,
    =ₛ_iff frame.id (codes "TXXX"),
    =ₛ_iff id (codes "TXXX"),
  )

  -- Of an id other than TXXX, the edited tag has the frames that the edit adds, behind those the tag had
  -- if the edit does not drop the id.
  pub of_id-edited :
      (id : Bytes) (cs : List Change) (frames : List Frame)
      → (id =ₛ codes "TXXX") ≡ false
      → of_id id (edited_frames go cs frames)
        ≡ (if is_listed id (all_ids cs) then [] else of_id id frames) ++ of_id id (all_frames cs)
  unfolding edited_frames
  of_id-edited id cs frames other =
      let ids = all_ids cs in
      let descriptions = all_descriptions cs in
      of_id-append id (kept_frames go ids descriptions frames) (all_frames cs)
      ∙ ap (λ kept. kept ++ of_id id (all_frames cs)) (of_id-kept id ids descriptions frames other)

pub all_frames-append :
    (id : Bytes) (xs ys : List Change)
    → of_id id (all_frames (xs ++ ys)) ≡ of_id id (all_frames xs) ++ of_id id (all_frames ys)
unfolding all_frames of_id
all_frames-append id [] ys = refl
all_frames-append id (x ∷ xs) ys =
    of_id-append id x.frames (all_frames (xs ++ ys))
    ∙ ap (λ fs. of_id id x.frames ++ fs) (all_frames-append id xs ys)
    ∙ sym (append_assoc (of_id id x.frames) (of_id id (all_frames xs)) (of_id id (all_frames ys)))
    ∙ ap (λ fs. fs ++ of_id id (all_frames ys)) (sym (of_id-append id x.frames (all_frames xs)))

pub all_ids-append :
    (id : Bytes) (xs ys : List Change)
    → is_listed id (all_ids (xs ++ ys)) ≡ (is_listed id (all_ids xs) || is_listed id (all_ids ys))
unfolding all_ids is_listed
all_ids-append id [] ys = refl
all_ids-append id (x ∷ xs) ys = ground (
  arith,
  all_ids-append id xs ys,
  is_listed-append id x.ids (all_ids (xs ++ ys)),
  is_listed-append id x.ids (all_ids xs),
)

-- The row of a key and an id is in the table, and no other row has the id.
unfoldable pub has_no_row : Bytes → List (Bytes × Bytes × List Bytes) → Bool
has_no_row id [] = true
has_no_row id ((_, i, _) ∷ rows) = not (i =ₛ id) && has_no_row id rows

unfoldable pub has_row : Bytes → Bytes → List (Bytes × Bytes × List Bytes) → Bool
has_row key id [] = false
has_row key id ((k, i, _) ∷ rows) =
    if i =ₛ id then (k =ₛ key) && has_no_row id rows else has_row key id rows

-- The ids of the frames of the parts that are not in `simpleKeys`.
abbrev pub other_ids : List Bytes
other_ids =
    codes "COMM"
    ∷ codes "USLT"
    ∷ codes "TRCK"
    ∷ codes "TPOS"
    ∷ codes "TXXX"
    ∷ codes "TCMP"
    ∷ codes "APIC"
    ∷ []

unfoldable pub are_apart : List (Bytes × Bytes × List Bytes) → Bool
are_apart [] = true
are_apart ((_, i, _) ∷ rows) = not (is_listed i other_ids) && are_apart rows

pub apart_of_row :
    (key id : Bytes) (rows : List (Bytes × Bytes × List Bytes))
    → are_apart rows ≡ true
    → has_row key id rows ≡ true
    → is_listed id other_ids ≡ false
unfolding are_apart has_row
apart_of_row key id [] apart row = cc
apart_of_row key id ((k, i, _) ∷ rows) apart row = elim (Bool-cases (i =ₛ id)) [
  | inl same ↦
      subst (λ x. is_listed x other_ids ≡ false) ((=ₛ_iff i id).0 same) (ground (arith, apart))
  | inr other ↦ apart_of_row key id rows (ground (arith, apart)) (ground (arith, other, row))
]
