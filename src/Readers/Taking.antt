-- ===== src/Readers/Taking.antt =====
-- What a reader keeps in its history.
use dds_router.Base.{ℕ, ◌+◌, ◌≡◌, ◌≤◌, true, false, some, arith, is_some, Option-cases, inl, inr}
use dds_router.Types.Data.{DataReceived}
use dds_router.Readers.Common.{ReceivedChange, RtpsReader, CommonReader, take_change, take_common}

-- What Fast DDS says of the changes of a history, of which there are `size`. `nextUntakenCache` leaves the
-- change that it gives where it is, and marks it as read: if no change was read, one is unread less. The
-- removal of this change takes it out of the history, and changes nothing of those that are unread.
pub record ReadLaws {H : Type 0} (rtps : RtpsReader H) (size : H → ℕ) : Type 0 where
  pub next :
      (h g : H) (c : ReceivedChange)
      → rtps.next_untaken h ≡ some (c, g)
      → rtps.unread_count h ≡ size h
      → (size g ≡ size h) × (rtps.unread_count g + 1 ≡ rtps.unread_count h)
  pub remove :
      (h g : H) (c : ReceivedChange)
      → rtps.next_untaken h ≡ some (c, g)
      → (size (rtps.remove_change c g) + 1 ≡ size g)
        × (rtps.unread_count (rtps.remove_change c g) ≡ rtps.unread_count g)

-- If the reader of Fast DDS follows its rules, and all changes in the history of a reader are unread, then
-- they still are after a take, whatever it returns. If the reader is enabled and Fast DDS gives a
-- change, correct or not, the take leaves exactly one change less. If Fast DDS gives none, because there
-- is no unread one or because of an error, or if the reader is disabled, nothing is changed.
pub take_common-ReadLaws :
    {H S : Type 0} (rtps : RtpsReader H) (size : H → ℕ) (data_in : DataReceived)
    (r : CommonReader H S)
    → ReadLaws rtps size
    → rtps.unread_count r.history ≡ size r.history
    → let (code, data_out, s) = take_common rtps data_in r in
      (rtps.unread_count s.history ≡ size s.history)
      × (r.enabled ≡ true
          → 1 ≤ size r.history
          → is_some (rtps.next_untaken r.history) ≡ true
          → size s.history + 1 ≡ size r.history)
      × (is_some (rtps.next_untaken r.history) ≡ false → s ≡ r)
      × (size r.history ≡ 0 → s ≡ r)
      × (r.enabled ≡ false → s ≡ r)
unfolding take_common take_change
take_common-ReadLaws rtps size data_in r laws u =
    elim (Option-cases (rtps.next_untaken r.history)) [
      | inl e ↦ ground (arith, e, u)
      | inr ((c, g), e) ↦
          let (kept, read) = laws.next r.history g c e u in
          let (gone, same) = laws.remove r.history g c e in
          ground (arith, e, u, kept, read, gone, same)
    ]
