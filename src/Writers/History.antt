-- ===== src/Writers/History.antt =====
-- How many changes a writer keeps.
use dds_router.Base.{ℕ, ◌+◌, ◌≡◌, ◌≤◌, ◌<◌, Bool, arith, leb, Option-cases, inl, inr}
use dds_router.Types.Data.{DataReceived}
use dds_router.Writers.Common.{
  Change, RtpsWriter, CommonWriter, fill_to_send_data, is_reliable, trim, write_change, write,
}

-- What Fast DDS says of a history of a depth: it is full when it has as many changes, an addition adds
-- one change at most, the removal of a change that was just added brings the number back, and the
-- removal of the oldest one of some takes one away.
pub record HistoryLaws {H : Type 0} (rtps : RtpsWriter H) (size : H → ℕ) (depth : ℕ) : Type 0 where
  pub full : (h : H) → rtps.is_full h ≡ leb depth (size h)
  pub add : (c : Change) (h : H) → size ((rtps.add_change c h).0) ≤ size h + 1
  pub remove :
      (c : Change) (h : H)
      → size (rtps.remove_change ((rtps.add_change c h).1) ((rtps.add_change c h).0)) ≤ size h
  pub remove_min : (h : H) → 1 ≤ size h → size (rtps.remove_min_change h) + 1 ≡ size h

module _ {H : Type 0} (rtps : RtpsWriter H) (size : H → ℕ) (depth : ℕ)
    (laws : HistoryLaws rtps size depth) where
  trim-size :
      (r : Bool) (c : Change) (h : H)
      → size h < depth
      → size (trim rtps r ((rtps.add_change c h).1) ((rtps.add_change c h).0)) < depth
  unfolding trim
  trim-size r c h k =
      let g = (rtps.add_change c h).0 in
      ground (arith, k, laws.full g, laws.add c h, laws.remove c h, laws.remove_min g)

-- If the history of a writer follows the rules of Fast DDS, and has fewer changes than its depth, then
-- it still has after a write, whatever the result: the depth itself is never reached.
pub write-HistoryLaws :
    {H : Type 0} (rtps : RtpsWriter H) (size : H → ℕ) (depth : ℕ) (data_in : DataReceived)
    (w : CommonWriter H)
    → HistoryLaws rtps size depth
    → size w.history < depth
    → size (write rtps data_in w).2.history < depth
unfolding write write_change
write-HistoryLaws rtps size depth data_in w laws k =
    elim (Option-cases (fill_to_send_data rtps w data_in)) [
      | inl e ↦ ground (arith, k, e)
      | inr (c, e) ↦
          ground (arith, k, e, trim-size rtps size depth laws (is_reliable w.qos) c w.history k)
    ]
