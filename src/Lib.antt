-- ===== src/Lib.antt =====
-- A model of the ns-pixels firmware: a live map of the trains of the Netherlands on an LED matrix.
--
-- Train positions come from a feed and are kept in a registry of at most 512 rows. Each row has a
-- pixel on a 224 × 224 canvas, the time of the last sighting, and a train type and service category
-- that another task looks up. A snapshot of the registry, one entry to a display pixel, is rebuilt
-- after each change and handed to the display. Paths below are from the repository's root.
--
-- Parts:
-- * Train models `src/train.rs`: the train types and service categories, `as_bit`, `TrainState` and
--   `PixelData`.
-- * Projection models `src/projection.rs`: `PixelCoord`, `wgs84_to_canvas` and `sat_u8`, over any f32
--   arithmetic.
-- * MapMode models the two views of `src/map_mode.rs`, `canvas_to_display`.
-- * Registry models `src/registry.rs`: `upsert`, `set_type`, `set_service`, `evict_older_than`,
--   `unknown_count`, `unknown_numbers`, `pending_enrichment`. Registry/Attempts has the attempt
--   offsets; the other children prove the laws of rows, eviction, sweeps and cooldown.
-- * Snapshot models `rebuild_clusters_into` of the same file, with its loops over indices. Snapshot/View
--   has what it shows of the registry, Snapshot/Placed where, and Snapshot/Extensional what it depends on.
-- * Zmq models `src/zmq.rs`: the handshake, `send_frame`, `recv_frame`, subscriptions and `recv`, over
--   any byte stream. Its children prove what is received, that it ends, and what is sent.
-- * Decompress models `src/decompress.rs`: `skip_header` and the loop of `inflate_gzip`, panics included.
--   Decompress/Utf8 is `core::str::from_utf8`.
-- * XmlParser models `src/xml_parser.rs`: `parse`, as a walk over the tokens of the tokenizer.
--   XmlParser/Document has the documents of the feed as trees, the other children walk through them.
-- * NsApi models `src/ns_api.rs`: the labels (NsApi/Labels), the request paths (NsApi/Paths), the two
--   fetches with their effect on the registry (NsApi/Fetch), the batches, and a round of the task.
--   NsApi/Fetch/Answered and NsApi/Round/Resolving have a gateway that answers, request by request and
--   over a round.
-- * Feed models `src/feed.rs`: what the task does with the frames of a message. Feed/Sightings has the
--   rows of the registry after it, Feed/Queue and Feed/Newcomers the channel of new trains,
--   and Feed/Stream the subscription and the loop over the messages of a stream.
-- * Exchange models how snapshot buffers go from the producers to `display_task` and back, and
--   Exchange/Frames how frame buffers go between `display_task` and `hub75_task`; a step is one of a task.
--   Exchange/Republish has `publish_snapshot` and `republish`, from the registry to the display.
-- * System puts the two tasks over the registry together, in steps; System/Rows has what holds of a row,
--   System/Sweeps the batches that a sweep gets, and System/Sound what holds in every state that is reached.
-- * Accel models the readings of `src/accel.rs`; Accel/Pull compares the direction with the pull.
-- * Display models the modes, the configuration and `rotate` of `src/display.rs`, and what a frame of
--   `display_task` does before it draws. Display/Rotation turns pixels, Display/Frames runs frames.
--   Display/Colors has the colours and the global pulse, as the list of pixels that are set, and
--   Display/Fading what a fade does. Display/Cluster has the per-cluster mode, and Display/Turns whose
--   turn it is in it. Display/Bright and Display/Lit have what a turn of the global pulse sets.
-- * Picture goes from the registry to the pixels that are set.
-- * Firmware puts System, the buffers of Exchange and the frames of `display_task` together, in steps.
--   Firmware/Handover and Firmware/Tracked follow the buffers and what stands in them, Firmware/Shown has what
--   the display has, and Firmware/Lights what is lit.
-- * Persist models the encoding of the configuration in `src/persist.rs`, and Persist/Store the flash
--   store of it and the start of `src/bin/main.rs`.
-- * Input models what the presses of `src/input.rs`, the controller of `src/map_mode.rs` and the save
--   task of `src/persist.rs` do to the shared cells, as events; Input/Presses runs any sequence of them, and
--   Input/Timing has how long a press lasts.
-- * Build models `build.rs`, and Connection the task `connection` of `src/bin/main.rs`.
-- * Prelude has the tests, lists, bits and association lists that the parts share.
-- * Extern states what is taken from crates and from f32, as records of operations and laws: the map
--   and the vectors of heapless, the clock of embassy_time, the unstable sort, the byte stream of
--   embedded_io_async, the inflater of miniz_oxide, the flash map of sequential_storage, the gateway
--   behind reqwless and serde_json_core. Its instances AssocMap, FixedPoint, InsertionSort, Trickle,
--   FlashCells and Stored show that the laws can be met.
-- * Witnesses applies the theorems at concrete inputs.
--
-- Instants and durations are counts of ticks. Machine integers are natural numbers with their
-- wrap-around written out. The loops of `compact` take the length of the snapshot as fuel, which is
-- enough since each round moves one index forward. `read_exact` takes the bytes that are asked for as
-- fuel, and `recv` the bytes the peer will send before the stream ends: each read brings a byte and each
-- frame takes one; a peer that never stops sending is not covered. `inflate_gzip` takes the input and the buffer's room, of which each round that goes
-- on uses a byte. The race of a press looks at the 801 milliseconds from the end of the debounce to the
-- threshold.
--
-- Not modelled: how the tasks resolve names and connect, the waits between presses, the set-up
-- of the hardware, and the vendored HTTP client.
pub mod Prelude
pub mod Extern
pub mod Projection
pub mod Train
pub mod MapMode
pub mod Registry
pub mod Snapshot
pub mod Zmq
pub mod Decompress
pub mod XmlParser
pub mod NsApi
pub mod Feed
pub mod Accel
pub mod Display
pub mod Exchange
pub mod Picture
pub mod Firmware
pub mod Persist
pub mod Input
pub mod System
pub mod Build
pub mod Connection
mod Witnesses
