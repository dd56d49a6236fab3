-- ===== src/Pipeline/Consuming.antt =====
-- src/main.cpp, the consumer thread of `run_pipeline`.
use v4l2_capture.Prelude.{
  ℕ, ◌+◌, Bool, true, ltb, ◌&&◌, if◌then◌else◌, ◌∷◌, [], ◌++◌, Option, none, some,
}
use v4l2_capture.Prelude.{◌-◌, ◌^◌}
use v4l2_capture.Prelude.Int.{ℤ, pos, negsuc, to_nat}
use v4l2_capture.Ring.{RingBuffer, push, try_pop_oldest, empty}
use v4l2_capture.Sender.{Frame, is_frame_usable}
use v4l2_capture.Pipeline.{
  Settings, blank_frame, moved_frame, Shared, Consumer, ConsumerAt, stop_test, done_test, ring_test,
  popping, consumer_waiting,
}
use v4l2_capture.Pipeline.{consuming, queueing, queued, closing, failing, stopping, consumer_exited}
use v4l2_capture.Pipeline.Capturing.{is_usable}

-- Whether `save_frame_to_files` throws is the Boolean.
abbrev pub SaveAnswer : Type 0
SaveAnswer = Bool

-- A usable frame is saved or not: it goes on to the TCP queue, if there is one.
unfoldable pub passed_on : Settings → Frame → Consumer → Consumer
passed_on c f k =
    if c.tcp_enabled then record k { at = queueing f } else record k { at = stop_test }

-- `static_cast<std::uint64_t>`
abbrev pub to_u64 : ℤ → ℕ
to_u64 (pos n) = n
to_u64 (negsuc n) = 2 ^ 64 - (n + 1)

unfoldable pub save : Settings → SaveAnswer → Frame → Consumer → Consumer
unfolding passed_on
save c throws f k =
    let save_index = k.saved in
    let counted = record k { saved = k.saved + 1 } in
    if ltb save_index (to_nat c.save_limit)
    then (if throws
        then record counted { at = failing; consumer_error = true }
        else passed_on c f (record counted { saved_frames = k.saved_frames ++ (f ∷ []) }))
    else passed_on c f counted

-- A frame that was popped is counted, and judged.
unfoldable pub consume : Settings → SaveAnswer → Frame → Consumer → Consumer
unfolding save passed_on
consume c throws f k =
    let counted = record k {
      consumed = k.consumed + 1;
      consumed_bytes = k.consumed_bytes + f.bytesused;
    } in
    if is_usable (is_frame_usable f)
    then (if c.pipeline_save && ltb k.saved (to_u64 c.save_limit)
        then save c throws f counted
        else passed_on c f counted)
    else record counted { at = stop_test; invalid = k.invalid + 1 }

unfoldable pub popped : Option Frame × RingBuffer Frame → Shared → Consumer → Shared × Consumer
popped (none, ring) s k = (record s { ring = ring }, record k { at = consumer_waiting })
popped (some f, ring) s k = (record s { ring = ring }, record k { at = consuming f })

unfoldable pub consumer_at :
    Settings → SaveAnswer → ConsumerAt → Shared → Consumer → Shared × Consumer
unfolding popped consume
consumer_at c throws stop_test s k =
    if s.stop_requested then (s, record k { at = closing }) else (s, record k { at = done_test })
consumer_at c throws done_test s k =
    if s.producer_done then (s, record k { at = ring_test }) else (s, record k { at = popping })
consumer_at c throws ring_test s k =
    if empty s.ring then (s, record k { at = closing }) else (s, record k { at = popping })
consumer_at c throws popping s k = popped (try_pop_oldest blank_frame moved_frame s.ring) s k
consumer_at c throws consumer_waiting s k = (s, record k { at = stop_test })
consumer_at c throws (consuming f) s k = (s, consume c throws f k)
consumer_at c throws (queueing f) s k =
    (record s { tcp_ring = push blank_frame moved_frame f s.tcp_ring }, record k { at = queued })
consumer_at c throws queued s k = (s, record k { at = stop_test; tcp_queued = k.tcp_queued + 1 })
consumer_at c throws closing s k =
    (record s { consumer_done = true }, record k { at = consumer_exited })
consumer_at c throws failing s k = (record s { consumer_done = true }, record k { at = stopping })
consumer_at c throws stopping s k =
    (record s { stop_requested = true }, record k { at = consumer_exited })
consumer_at c throws consumer_exited s k = (s, k)

unfoldable pub consumer_moves : Settings → SaveAnswer → Shared → Consumer → Shared × Consumer
unfolding consumer_at
consumer_moves c throws s k = consumer_at c throws k.at s k
