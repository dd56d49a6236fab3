-- ===== src/Pipeline/Threads/Deeds.antt =====
-- What the consumer can do with the two buffers and the frame in its hand in a step, and what its counters
-- and the flags are to be after it.
use v4l2_capture.Prelude.{ℕ, ◌+◌, ◌≤◌, ◌≡◌, Bool, true, false, if◌then◌else◌, ◌⊎◌}
use v4l2_capture.Prelude.{List, [], ◌∷◌, length, Option, none}
use v4l2_capture.Prelude.Int.{to_nat}
use v4l2_capture.Ring.{RingBuffer, push, try_pop_oldest}
use v4l2_capture.Sender.{Frame, is_frame_usable}
use v4l2_capture.Pipeline.{
  Settings, blank_frame, moved_frame, Shared, Consumer, ConsumerAt, ring_test,
}
use v4l2_capture.Pipeline.{consuming, queueing, queued, closing, failing, stopping, consumer_exited}
use v4l2_capture.Pipeline.Capturing.{is_usable}
use v4l2_capture.Pipeline.Threads.Produces.{frames_of}

-- The frame on its way to the TCP queue.
abbrev pub queueing_now : ConsumerAt → List Frame
queueing_now (queueing f) = f ∷ []
queueing_now _ = []

-- The frame taken from the ring, and not yet counted.
abbrev pub consuming_now : ConsumerAt → List Frame
consuming_now (consuming f) = f ∷ []
consuming_now _ = []

-- A frame in the TCP queue that is not yet counted.
abbrev pub unqueued : ConsumerAt → ℕ
unqueued queued = 1
unqueued _ = 0

-- Usable frames that the consumer has had, and neither dropped nor queued.
abbrev pub held : Consumer → ℕ
held k = length (queueing_now k.at) + (if k.consumer_error then 1 else 0)

abbrev pub consumer_gone : ConsumerAt → Bool
consumer_gone stopping = true
consumer_gone consumer_exited = true
consumer_gone _ = false

-- Where a consumer with an error can be.
abbrev pub has_failed : ConsumerAt → Bool
has_failed failing = true
has_failed stopping = true
has_failed consumer_exited = true
has_failed _ = false

-- The test that the ring is empty comes after one that the producer is done.
abbrev pub has_seen_done : ConsumerAt → Bool
has_seen_done ring_test = true
has_seen_done _ = false

-- The loop is left, without an error.
abbrev pub has_left : ConsumerAt → Bool
has_left closing = true
has_left consumer_exited = true
has_left _ = false

-- Why it is left.
abbrev pub MayLeave : Shared → Type 0
MayLeave s = (s.stop_requested ≡ true) ⊎ ((s.producer_done ≡ true) × (s.ring.size ≡ 0))

abbrev pub is_failing : ConsumerAt → Bool
is_failing failing = true
is_failing stopping = true
is_failing _ = false

-- An error of the consumer stops the pipeline.
abbrev pub Stops : Shared → Consumer → Type 0
Stops s k = k.consumer_error ≡ true → (is_failing k.at ≡ true) ⊎ (s.stop_requested ≡ true)

-- What the consumer does with the two buffers.
pub data Deed : Type 0 where
  no_deed : Deed
  pops : Option Frame → Deed
  judges queues : Frame → Deed

abbrev pub taken_in : Deed → List Frame
taken_in (judges f) = f ∷ []
taken_in _ = []

abbrev pub queued_by : Deed → List Frame
queued_by (queues f) = f ∷ []
queued_by _ = []

abbrev pub ring_after : Deed → RingBuffer Frame → Option Frame × RingBuffer Frame
ring_after (pops o) r = try_pop_oldest blank_frame moved_frame r
ring_after _ r = (none, r)

abbrev pub tcp_ring_after : Deed → RingBuffer Frame → RingBuffer Frame
tcp_ring_after (queues f) r = push blank_frame moved_frame f r
tcp_ring_after _ r = r

-- The frame taken is in hand; once it is counted, it is kept if it is usable, or nothing is.
abbrev pub HandAfter : Deed → ConsumerAt → ConsumerAt → Type 0
HandAfter no_deed at at' =
    (queueing_now at ≡ [])
    × (consuming_now at ≡ [])
    × (queueing_now at' ≡ [])
    × (consuming_now at' ≡ [])
HandAfter (pops o) at at' =
    (queueing_now at ≡ [])
    × (consuming_now at ≡ [])
    × (queueing_now at' ≡ [])
    × (consuming_now at' ≡ frames_of o)
HandAfter (judges f) at at' =
    (queueing_now at ≡ [])
    × (consuming_now at ≡ f ∷ [])
    × ((queueing_now at' ≡ [])
        ⊎ ((queueing_now at' ≡ f ∷ []) × (is_usable (is_frame_usable f) ≡ true)))
    × (consuming_now at' ≡ [])
HandAfter (queues f) at at' =
    (queueing_now at ≡ f ∷ [])
    × (consuming_now at ≡ [])
    × (queueing_now at' ≡ [])
    × (consuming_now at' ≡ [])

abbrev pub Popped : Deed → RingBuffer Frame → Type 0
Popped (pops o) r = (try_pop_oldest blank_frame moved_frame r).0 ≡ o
Popped _ r = Unit

-- What a step does to the counts of the consumer.
pub record Counts (c : Settings) (d : Deed) (k k' : Consumer) : Type 0 where
  pub consumed : k'.consumed ≡ k.consumed + length (taken_in d)
  pub queued : k'.tcp_queued + unqueued k'.at ≡ k.tcp_queued + unqueued k.at + length (queued_by d)
  pub balance :
      c.tcp_enabled ≡ true
      → k'.invalid + held k' + length (queued_by d) ≡ k.invalid + held k + length (taken_in d)
  pub in_turn :
      length (queueing_now k'.at) + length (queued_by d)
      ≤ length (queueing_now k.at) + length (taken_in d)
  pub saved : length k.saved_frames ≤ k.saved → length k'.saved_frames ≤ k'.saved
  pub limit :
      length k.saved_frames ≤ k.saved
      → length k.saved_frames ≤ to_nat c.save_limit
      → length k'.saved_frames ≤ to_nat c.save_limit

pub record Consumes (c : Settings) (d : Deed) (s : Shared) (k : Consumer) (s' : Shared)
    (k' : Consumer) : Type 0 where
  pub counts : Counts c d k k'
  pub hand : HandAfter d k.at k'.at
  pub out : Popped d s.ring
  pub ring : s'.ring ≡ (ring_after d s.ring).1
  pub tcp_ring : s'.tcp_ring ≡ tcp_ring_after d s.tcp_ring
  pub producer_done : s'.producer_done ≡ s.producer_done
  pub failed : k'.consumer_error ≡ true → has_failed k'.at ≡ true
  pub done : s'.consumer_done ≡ consumer_gone k'.at
  pub stays : s.consumer_done ≡ true → s'.consumer_done ≡ true
  pub seen : has_seen_done k'.at ≡ true → s'.producer_done ≡ true
  pub stops : Stops s' k'
  pub left : has_left k'.at ≡ true → MayLeave s'
  pub over : consumer_gone k.at ≡ true → d ≡ no_deed
  pub stop : s.stop_requested ≡ true → s'.stop_requested ≡ true
