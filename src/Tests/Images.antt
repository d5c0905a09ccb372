-- ===== src/Tests/Images.antt =====
-- The selectors on a store whose blocks 1 and 2 share a media range.
use kvmem_test.Common.{
  ◌↔◌, ◌*◌, ◌/◌, ℕ, ◌≤◌, ◌≡◌, refl, true, List, [], ◌∷◌, length, contains, arith, ok,
}
use kvmem_test.Store.Types.{KvMemStore}
use kvmem_test.Store.Select.{
  none_kept, keep, keep_front, keep_back, keep_all, flagged, kept_ids, candidates, insert, sort,
  best, score_at, better, keep_forced, top_fill, is_quota, topk_kept, pick_topk_ungrouped,
  prefill_kept, pick_prefill_ungrouped,
}
use kvmem_test.Store.Select.Ids.{IsSelection}
use kvmem_test.Store.Semantic.{count_new}
use kvmem_test.Store.Media.{
  media_groups, merge_group, group_of, members, keep_group, keep_groups, keep_latest, add_groups,
  preferred, media_kept, constrain_media, pick_topk_blocks, pick_prefill_pressure_blocks,
}
use kvmem_test.Store.Media.Fits.{
  pick_topk_blocks-fits, pick_prefill_pressure_blocks-fits, pick_topk_blocks-required,
}
use kvmem_test.Store.Table.Layout.{IsLaid}
use kvmem_test.Store.Media.Ranges.{Crossed, media_groups-Crossed}
use kvmem_test.Store.Media.Together.{pick_topk_blocks-whole}
use kvmem_test.Tests.{hundredths, five_blocks}

abbrev with_image : KvMemStore ℕ
with_image = record five_blocks { media_ranges = (5, 11) ∷ [] }

abbrev picked : List ℕ
picked = 0 ∷ 1 ∷ 2 ∷ []

image_picked : pick_topk_blocks hundredths with_image [] ≡ ok picked
unfolding none_kept keep keep_front keep_back keep_all flagged kept_ids candidates insert sort best
    score_at better keep_forced top_fill is_quota topk_kept pick_topk_ungrouped count_new
    merge_group group_of members keep_group keep_groups keep_latest add_groups preferred media_kept
    constrain_media pick_topk_blocks
image_picked = refl

image_pressed : pick_prefill_pressure_blocks hundredths with_image [] ≡ ok picked
unfolding none_kept keep keep_front keep_back keep_all flagged kept_ids candidates insert sort
    score_at better prefill_kept pick_prefill_ungrouped count_new merge_group group_of members
    keep_group keep_groups keep_latest add_groups preferred media_kept constrain_media
    pick_prefill_pressure_blocks
image_pressed = refl

pick_topk_blocks-fits_example : IsSelection 5 picked × (length picked ≤ 3)
pick_topk_blocks-fits_example =
    pick_topk_blocks-fits hundredths with_image [] picked (omega arith) image_picked

pick_prefill_pressure_blocks-fits_example : IsSelection 5 picked × (length picked ≤ 3)
pick_prefill_pressure_blocks-fits_example =
    pick_prefill_pressure_blocks-fits hundredths with_image [] picked (omega arith) image_pressed

pick_topk_blocks-required_example : contains 0 picked ≡ true
pick_topk_blocks-required_example =
    pick_topk_blocks-required hundredths with_image [] picked 0 refl (omega arith) (omega arith)
      (omega arith) refl image_picked

with_image-IsLaid : IsLaid with_image
with_image-IsLaid = record { positive = omega arith; bounded = omega arith; laid = ground arith }

-- Tokens 5 and 10 are in blocks 1 and 2.
pick_topk_blocks-whole_example : contains (5 / 4) picked ≡ contains (10 / 4) picked
pick_topk_blocks-whole_example =
    pick_topk_blocks-whole hundredths with_image [] picked 0 5 11 5 10 with_image-IsLaid
      (omega arith, tt) (omega arith, tt) refl (omega arith) (omega arith) (omega arith)
      (omega arith) (omega arith) (omega arith) image_picked

media_groups-Crossed_example :
    (group_of (media_groups with_image) 1 ≡ group_of (media_groups with_image) 2)
    ↔ Crossed (2 * 4) ((5, 11) ∷ [])
media_groups-Crossed_example =
    media_groups-Crossed with_image 1 with_image-IsLaid (omega arith, tt) (omega arith, tt)
      (omega arith)
