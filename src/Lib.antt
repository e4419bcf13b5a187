-- ===== src/Lib.antt =====
-- The core logic of eufy-sdk, a TypeScript client for eufy devices, modelled from its sources. It is
-- the logic between the wire and the caller: how a station's P2P connection is shared and let go, how
-- locks are commanded, how live video is shared among its consumers, how an
-- audio or video stream is cut into its units, which push thumbnail is kept, and how a
-- robot's map is held and read. The parts meet through the client facade, which is network wiring and
-- is not modelled; a part's environment is arguments and steps of its model.
--
-- Prelude and its children: the library names, Boolean tests, lists over native numbers, and results.
-- Bytes: bytes, hex text and checksums. KeyMap: the `Map` and `Set` of JavaScript with keys that are
-- compared for equality only.
-- Annexb: src/transport/p2p/annexb.ts. A function per function; `Rbsp` is the class `RbspReader`, a
-- method being a function to its result and the reader after it, and `Geometry` the picture size.
-- LiveConsumer: the class `ConsumerImpl` of src/transport/p2p/shared-live-source.ts. What listeners are
-- told is a list in the state, and how they react (a pause or a detach) is an argument. `Run` has the
-- histories. LiveSource: its class `SharedLiveSource`, in `Calls` a function per method and timer
-- callback; streams and the owner's callbacks are a list of actions. `Reach` has the steps of any
-- history, `Inv.Streams` replays the actions, and `Window` has the prebuffer. Durations are not modelled:
-- a timer that is pending may fire at any step, and an interval whose handle was overwritten still does.
-- Recording: the class `FragmentRecording` of src/transport/p2p/fragment-recording.ts over any muxer,
-- a function per method; `pull` is a round of its iterator, cut at each await. `Run` has the histories.
-- Util: src/core/util.ts, the integer encoders `u16le`, `u16be`, `u32le` and `u32be`.
-- Adts: src/transport/p2p/adts.ts. `parse_adts_header` is `parseAdtsHeader`; `push` is the method of
-- `AdtsFrameReader` on its buffered bytes. Its loop runs on fuel, one more than there are bytes, as
-- every round takes at least one of them.
-- Ff09: src/transport/ff09.ts. A function per builder and reader, with errors as values. The AES-128-
-- CBC cipher is a parameter with its documented behaviour; clock and nonce are arguments. The reply
-- parser runs on as much fuel as there are bytes, two of which each round takes.
-- SessionManager: src/transport/p2p/session-manager.ts. A function per method and per timer callback;
-- what the owner sees is a list of effects. `Opens` has `acquire`, cut at its await, `Reach` the steps
-- of any history, in which any caller may release, and `Settle` what becomes of an open. A close that
-- fails, and the durations of timers, are not modelled: a timer that is live may fire at any step.
-- StoredImageCache: src/transport/stored-image-cache.ts. A function per method; the downloader's
-- promises settle at any step. The loop of `pump` recurs on the number of free slots.
-- Lz4: src/core/lz4-block.ts. The loop runs on fuel, one more than the block has bytes, as every round
-- takes its token at least; a size is a natural number.
-- DeviceFamily: src/model/device-family.ts and src/model/device-types.ts.
-- MapPixels: src/model/map-pixels.ts with the records of src/model/vacuum-map.ts that it reads.
-- Coordinates are integers and resolutions natural numbers, as the decoder of the wire makes them.
-- VacuumMapStore: src/model/vacuum-map-store.ts. A function per method, and the sequences of pieces.
--
-- Not modelled: sockets, brokers, HTTP and files, which are I/O; the platform's cryptography; the
-- capability modules and the tables of commands and parameters; generated files and documentation.
pub mod Adts
pub mod Annexb
pub mod Bytes
pub mod DeviceFamily
pub mod Ff09
pub mod KeyMap
pub mod LiveConsumer
pub mod LiveSource
pub mod Lz4
pub mod MapPixels
pub mod Prelude
pub mod Recording
pub mod SessionManager
pub mod StoredImageCache
pub mod Util
pub mod VacuumMapStore
