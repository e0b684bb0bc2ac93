-- ===== src/Protocol/Message/Accounts.antt =====
-- What the counts of a result say, once they do not contradict each other.
use eliot_search.Prelude.{ℕ, ◌+◌, ◌≤◌, ◌≡◌, ◌↔◌, ◌&&◌, refl, Bool, true, false, arith, ◌==◌}
use eliot_search.Protocol.{max_items}
use eliot_search.Protocol.Message.Item.{StopReason, complete, output_limit, is_complete}
use eliot_search.Protocol.Message.Raw.{is_misaccounted}

-- `count` items are emitted of `matches` matches and `unavailable` gaps.
pub record IsAccounted (selected scanned unavailable scanned_bytes matches count limit : ℕ)
    (scan_complete complete_negative : Bool) (stop : StopReason) : Type 0 where
  pub partition : scanned + unavailable ≡ selected
  pub whole : (scan_complete ≡ true) ↔ (unavailable ≡ 0)
  pub none_found : (complete_negative ≡ true) ↔ ((unavailable ≡ 0) × (matches ≡ 0))
  pub told : (stop ≡ complete) ↔ (count ≡ matches + unavailable)
  pub emitted : count ≤ matches + unavailable
  pub limited : (count ≤ limit) × (limit ≤ max_items)
  pub plausible : matches ≤ scanned_bytes

is_complete→eq : (stop : StopReason) → is_complete stop ≡ true → stop ≡ complete
is_complete→eq complete h = refl
is_complete→eq output_limit h = absurd (cc)

module _ (generation selected scanned unavailable scanned_bytes matches count total limit : ℕ)
    (scan_complete complete_negative : Bool) (stop : StopReason)
    (fine : is_misaccounted generation selected scanned unavailable scanned_bytes matches count
        total limit scan_complete complete_negative stop
      ≡ false) where
  partition_of : scanned + unavailable ≡ selected
  unfolding is_misaccounted
  partition_of = ground arith

  whole_of : scan_complete ≡ (scanned == selected)
  unfolding is_misaccounted
  whole_of = ground arith

  negative_of : complete_negative ≡ (scan_complete && (matches == 0))
  unfolding is_misaccounted
  negative_of = ground arith

  told_of : is_complete stop ≡ (count == total)
  unfolding is_misaccounted
  told_of = ground arith

  bounds_of : (count ≤ total) × (count ≤ limit) × (limit ≤ max_items) × (matches ≤ scanned_bytes)
  unfolding is_misaccounted
  bounds_of = ground arith

  pub is_misaccounted-IsAccounted :
      total ≡ matches + unavailable
      → IsAccounted selected scanned unavailable scanned_bytes matches count limit scan_complete
          complete_negative stop
  is_misaccounted-IsAccounted sum = record {
    partition = partition_of;
    whole = ground (arith, partition_of, whole_of);
    none_found = ground (arith, partition_of, whole_of, negative_of);
    told = (λ h. ground (arith, told_of), λ h. is_complete→eq stop (ground (arith, told_of)));
    emitted = ground (arith, bounds_of);
    limited = ground (arith, bounds_of);
    plausible = ground (arith, bounds_of);
  }
