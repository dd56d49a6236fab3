-- ===== src/Lib.antt =====
-- Models and theorems for a V4L2 capture pipeline that sends frames over TCP.
--
-- The program captures frames from a camera, passes them through bounded buffers to a consumer and
-- a TCP thread, and sends each as a 44-byte header with a checksum and its payload. A receiver takes
-- connections one after the other, checks every header and payload, and keeps statistics. A ROS 2
-- adapter receives the same protocol and converts the images.
--
--   Prelude    numbers, bits, lists, tests and integers that the other files share
--   Ring       include/ring_buffer.hpp: RingBuffer, as steps on a record; Refine has the bounded
--              queue that it implements, Runs the runs of calls
--   Recovery   include/capture_recovery.hpp: the two controllers that decide when the camera stream
--              is rebuilt; Timeouts is about capture errors, Bursts about invalid frames
--   Protocol   include/frame_protocol.hpp: serialize_header, deserialize_header, compute_crc32,
--              make_header and validate_header
--   Send       src/tcp_send.cpp, include/tcp_send.hpp: send_all_until and send_all_with_timeout
--   Sender     src/main.cpp: is_frame_usable, send_frame_over_tcp and
--              connect_to_tcp_receiver_with_retry
--   Pipeline   src/main.cpp, run_pipeline: its state, and in Capturing, Consuming and Sending a step of
--              each of its threads; Threads has the start and the runs, Produces, Deeds,
--              Consumes and Transmits what a step does, Accounts the counts, Order and Sent the order of the
--              frames, Complete, Drains and Ends how a run ends
--   Camera     src/camera_device.cpp: dequeue_frame and capture_frame_copy
--   Loopback   src/tcp_sender.cpp: make_test_yuyv_payload, apply_header_fault and the sending loop;
--              Delivery runs it, without a fault, against Server
--   Node       ros2_ws/src/v4l2_ros2_adapter/src/tcp_diagnostics_node.cpp: read_exact_interruptible,
--              handle_client, publish_frame and receiver_loop
--   Receiver   src/tcp_receiver.cpp: read_exact, and one round of the session's loop in `main`
--   Server     src/tcp_receiver.cpp: the loops over frames and connections, the statistics, the
--              exit code; Accounts is about the counters, Sessions about a whole session
--   Fixture    src/protocol_fixture.cpp: write_fixture and verify_fixture; Verified is about a file that
--              was written, Settles about any file
--   Config     src/app_config.cpp: load_app_config and validate_app_config; Ranges, Accepted and Usable
--              are about the numbers, the validation and the loading
--   Yuyv       ros2_ws/src/v4l2_ros2_adapter/include/v4l2_ros2_adapter/yuyv_conversion.hpp
--   Examples   the theorems at concrete inputs
--
-- The buffer of Ring carries the frames from capture to consumer and to the TCP thread, Recovery
-- serves the producer of Pipeline, whose sender calls Sender. Send writes what Protocol serializes, and
-- Server runs Receiver on each connection, which reads bytes and decodes and checks them by Protocol.
-- Fixture uses Protocol on a file. Config supplies the limits.
--
-- A byte is a natural number below 256, and an integer of w bits a natural number below 2^w with its
-- wrap-around written out; a C++ `int` that can be negative is an integer ℤ over the same numbers.
-- An exception, or a `false` with a reason, is a constructor of a result type.
--
-- The operating system is a parameter. `send`, `poll` and the clock answer by the rounds that a run
-- of Send is given. `recv` is a field of the record Sockets; the record Streams states what the
-- manual says of `recv` on a stream socket, with a bound on how often it is still interrupted. The
-- system clock, the files that are saved and the lines of the configuration file are functions.
--
-- Fuel: a read of n bytes is given n rounds and one for each interruption, since every other answer
-- takes a byte or ends it; a session is given one round for each byte to come, since a frame takes 44
-- bytes at least; the verification of a file has one round for each byte and one more, since each frame
-- takes its header from the file.
--
-- Threads: a run of Pipeline is a list of events, each of which lets one thread make its next access to
-- a flag or a ring buffer, with the work of its own around it. Every order of the threads is such a
-- list. A frame is counted in a step after the push or the pop that moved it, so that the other threads
-- can come in between; a counter is written by one thread only. The stop flag that a send reads is an
-- answer in its rounds, whatever the flag in the state. A wait on a condition variable is a
-- step, since it ends after 100 ms at the latest.
--
-- Not modelled: the set-up and the release of the camera in src/camera_device.cpp, its listings and its
-- files of single frames (in a run of Pipeline, a call of capture_frame_copy and a rebuild of the
-- camera are answers in an event); the other modes of src/main.cpp; the set-up of sockets, the
-- parameters and the messages of the ROS 2 node, and its image_throughput_check.cpp; floating-point
-- latency summaries; argument parsing of the test programs; and the text of logs and statistics files.
-- They are input and output, or calls of libraries that are not in the repository.
pub mod Prelude
pub mod Ring
pub mod Recovery
pub mod Protocol
pub mod Send
pub mod Receiver
pub mod Server
pub mod Config
pub mod Sender
pub mod Node
pub mod Pipeline
pub mod Loopback
pub mod Camera
pub mod Yuyv
pub mod Fixture
pub mod Examples
