-- ===== src/Logger/Queue/Tests.antt =====
-- A logger with an empty channel, and one with a record at the address 8448:
-- base/sources/logger/logger_impl.cpp.
use libcppx.Base.{
  ℕ, ◌+◌, ◌<◌, ◌≡◌, ◌≢◌, ◌⊎◌, some, List, [], ◌∷◌, ◌++◌, length, ◌==◌, if◌then◌else◌, refl, arith,
  false,
}
use libcppx.ErrorCode.{ErrorCode}
use libcppx.Channel.Layout.{reset_stats}
use libcppx.Channel.Fixed.{FixedChannel}
use libcppx.Channel.Fixed.Valid.{IsValid}
use libcppx.Channel.Fixed.Contents.{write}
use libcppx.Logger.Queue.{
  LogQueue, LogItemType, ReadItem, no_params, copy_params, copy_each, blocks, log_async, take_item,
}
use libcppx.Logger.Queue.Logged.{waiting, texts, log_async-Logged}
use libcppx.Logger.Queue.Taken.{is_allocated, take_item-Taken}

abbrev log_channel : ℕ → FixedChannel
log_channel tail = record {
  data_p = 65536;
  elem_size_p = 64;
  size_p = 4096;
  tail = tail;
  head_ref = 0;
  stats_p = reset_stats;
  data_c = 65536;
  elem_size_c = 64;
  size_c = 4096;
  head = 0;
  tail_ref = 0;
  stats_c = reset_stats;
}

abbrev empty_queue : LogQueue
empty_queue = record {
  channel = log_channel 0;
  memory = λ at. 0;
  items = λ at. no_params;
  allocated = [];
  notified = 0;
}

abbrev one_record : LogQueue
one_record = record empty_queue {
  channel = log_channel 1;
  memory = write (λ at. 0) 65536 8448;
  allocated = 8448 ∷ [];
}

-- Two parameters.
abbrev two_params : List (List ℕ)
two_params = (97 ∷ []) ∷ (98 ∷ 99 ∷ []) ∷ []

-- A parameter without memory ends the copy.
copy_ends :
    (copy_params 512 (λ i. if i == 0 then 528 else 0) (some two_params)).params
    ≡ (528, 97 ∷ []) ∷ []
unfolding copy_params copy_each
copy_ends = refl

-- What the slots hold behind the first: no parameters.
abbrev empty_slots : ℕ → ReadItem
empty_slots at = record { pp_params = 0; params = []; log_buffer = 0 }

take_item-Taken_example :
    let (taken, r) = take_item empty_slots one_record in
    IsValid 12 r.channel
    × (waiting one_record ≡ 8448 ∷ waiting r)
    × (taken ≡ some (65536, some LogItemType.log))
    × ((block : ℕ)
        → block ≢ 65536
        → is_allocated block (0 ∷ []) ≡ false
        → is_allocated block r.allocated ≡ is_allocated block (8448 ∷ []))
take_item-Taken_example = take_item-Taken empty_slots one_record (omega arith) (omega arith)

log_async-Logged_example :
    let (code, e', r) =
      log_async 8448 512 (λ i. 528 + i) (some two_params) ErrorCode.success empty_queue in
    let copied = copy_params 512 (λ i. 528 + i) (some two_params) in
    IsValid 12 r.channel
    × (((length (waiting empty_queue) < 4096)
          × (code ≡ ErrorCode.success)
          × (e' ≡ ErrorCode.success)
          × (waiting r ≡ waiting empty_queue ++ (8448 ∷ []))
          × (r.items 8448 ≡ copied)
          × (◌≢◌ {A = ℕ} 512 0 → ((i : ℕ) → 528 + i ≢ 0) → texts (r.items 8448).params ≡ two_params)
          × (r.allocated ≡ 8448 ∷ (blocks copied ++ empty_queue.allocated))
          × (r.notified ≡ (
              if length (waiting empty_queue) == 0
              then empty_queue.notified + 1
              else empty_queue.notified)))
        ⊎ ((length (waiting empty_queue) ≡ 4096)
            × (code ≡ ErrorCode.out_of_memory)
            × (e' ≡ ErrorCode.out_of_memory)
            × (waiting r ≡ waiting empty_queue)
            × (r.allocated ≡ blocks copied ++ empty_queue.allocated)
            × (r.notified ≡ empty_queue.notified)))
log_async-Logged_example =
    log_async-Logged 8448 512 (λ i. 528 + i) two_params ErrorCode.success empty_queue (omega arith)
      (omega arith) (omega arith)
