-- ===== src/Lib.antt =====
-- MusiFlac's Go backend (go_backend): verified models of its core parts.
--
-- The backend is a library that the Android application calls through gomobile. These parts of it are
-- modelled, each by the module named after it:
--
-- * LogBuffer (go_backend/logbuffer.go): the ring of log entries that the application polls. LogBuffer
--   has the state and Add, getSince, snapshotLocked, GetAll, Clear; LogBuffer/Message has
--   truncateLogMessage; Window, Invariant and Polling have the proofs.
-- * Ogg (go_backend/ogg_edit.go): the editor of Vorbis comments in Ogg Opus and Vorbis files. Ogg/Page
--   has oggEditPage, its checksum, serialize and readNextOggEditPage; Ogg/Packets has
--   paginateOggPackets and assembleOggHeaderPackets; Ogg/Comments has the comment block; Ogg/Edit has
--   EditOggFields and readAllOggEditPages, Ogg/Fields what it makes of the comments. PageTrip, PageCut, PacketTrip,
--   Fold, Layout, Stream, Collect, CommentsInverse, Audio, EditTrip, EditTotal and FieldEdit have the proofs.
--   Ogg/Gathering and Ogg/Reader have the reader of tags (go_backend/audio_metadata_ogg.go), which shares no
--   code with the editor: collectOggPackets, and ReadOggVorbisComments with parseVorbisComments. Listed, Block,
--   Gather, Collected, Written and Detected have the proofs about it, Shown those about both.
-- * Progress (go_backend/progress.go): the progress of downloads and the deltas that the application
--   polls. Progress/State has the registry, Progress/Items its operations, Progress/Delta
--   GetMultiProgress, GetMultiProgressDelta and what the application makes of an answer. Invariant,
--   Median, Prune, Sync, Runs, Polling and Cache have the proofs.
-- * Cancel (go_backend/cancel.go): the registry of cancellations. Cancel has the operations, with the
--   store of contexts that running requests share; cancelDownload and cancelAllActiveDownloads also
--   call Progress. Invariant, Kept, Sweeping, Runs, Effect and Downloads have the
--   proofs; Automaton is what one id sees, and Standing has the proofs about it.
-- * Transfer (go_backend/progress.go): ItemTransferProgressReporter and ItemProgressWriter, which use
--   Progress and Cancel. Lag has the proofs. The writer below ItemProgressWriter is a function on a state of
--   its own.
-- * Ape (go_backend/ape_tags.go): APEv2 tags. Ape/Tag has both readers, Ape/Write the writer, Ape/Merge
--   MergeAPEItems, Ape/Fields apeKeysFromFields. Layout, RoundTrip, Replace and Same have the proofs.
-- * Vorbis (go_backend/metadata.go): edits of Vorbis comments, in FLAC and Ogg files. Vorbis has the setters
--   of single comments, Vorbis/Fields applyVorbisFieldEdits. Set, Filtered, Untouched, Keys and Edited have
--   the proofs.
-- * Id3 (go_backend/mp3_id3_write.go and go_backend/id3_reader.go): ID3v2 tags, edited and read. Id3 has
--   the numbers, removeUnsync, the frame parsers and serializeID3v24Tag; Id3/Text the texts of frames and
--   Id3/Genres cleanGenre, both of go_backend/audio_metadata.go; Id3/Apply applyID3Frame; Id3/Edit
--   EditMP3Fields; Id3/Walk readID3v2WithCover and walkID3Frames; Id3/Unsync id3UnsyncReader. Numbers,
--   Frames, Plan, Rows, Spares, EditTrip, Seen, ReadBack, TextField, Kept, Fields and Panic have the proofs.
-- * Riff (go_backend/wav_aiff.go): WAV and AIFF files. Riff has writeID3Chunk, Riff/Probe streamProbeWAV,
--   streamProbeAIFF and parseRIFFInfo. Chunks, Folded, Files, Replace and ReadBack have the
--   proofs.
-- * RateLimit (go_backend/ratelimit.go): the limiter of requests to a provider. RateLimit has TryAcquire,
--   Available and WaitForSlotContext, between the calls of other goroutines. Cleaning, Refinement, Window and
--   Waiting have the proofs; Refinement has the reference, which forgets no grant.
-- * Budget (go_backend/extension_resolution_budget.go): the time that an extension may spend on a resolution.
--   Budget has pause and charge with the functions they return, remainingTime, stop and the callback of the
--   timer; Watch has the reference, a stopwatch that knows only which of these functions still count.
--   Tracking, Steps, Releases, Ended, Refinement and Promise have the proofs.
-- * Policy (go_backend/extension_transfer_policy.go): the transfer policy that a manifest gives. Bounds has
--   the proofs.
--
-- Prelude has what they share: the tests and lists over the native numbers, bytes and strings, int64
-- as integers, maps as association lists, and results with errors.
--
-- Conventions. A definition has the name of the Go function in snake case. Strings and slices are lists
-- of bytes, a file is the list of its bytes, an error is a value of the component's error type. `int` has
-- 64 bits. An unsigned 32-bit number keeps its wrap-around where the code computes with it; `int64`
-- counters and sizes do not reach 2 ^ 63. A loop is recursion on its list, or on fuel: the lacing of a
-- packet has a round for each of its bytes and one more, the pagination one for each segment, the
-- collection of header pages 1024 (the code's own limit), the loops over the pages of a file one for each
-- byte that is left and one more. The loops over the frames of a tag, over the chunks of a file and over
-- its INFO texts have a round for each byte, walkID3Frames one for each byte that it may still read and one
-- more, and WaitForSlotContext one for each entry of its list. Every round takes what it counts by one at
-- least. A list over which Go's `range` of a map goes has the order of that visit (`descriptions`; `rows` for
-- simpleKeys). collectOggPackets has a round for each page up to its own maxPages. Times
-- are numbers of nanoseconds; each reading of the clock is an argument, and a timer is kept after Stop,
-- since its callback may already run.
--
-- Not modelled: the file system (temporary files, sync and rename), locks (an operation holds its lock
-- throughout), channels, and the standard output; of the tags, ID3v1, embedded covers, buildID3v24Tag, M4A
-- and FLAC; validateDownloadTransferCapability. Parameters stand for the regular expressions that mask
-- secrets in log messages (`sanitize`), for json.Marshal (`render`, `marshals`), for float64 (`Floats`, `rate`, `round`), for strings.ToUpper where
-- keys are compared (`upper`), ToLower (`lower`) and TrimSpace (`trim`), for the pattern that splits an
-- artist string (`pieces`), for the reading of a cover file (`read_file`) and the picture block made of it (`picture`), for the parsing
-- and rounding of a gain (`quantized`, `parse_int16`, `gain_text`), and for the functions of package
-- strings, strconv and http that ID3 tags use (`Packages`).
pub mod Prelude
pub mod LogBuffer
pub mod Ogg
pub mod Progress
pub mod Ape
pub mod Cancel
pub mod Transfer
pub mod Vorbis
pub mod RateLimit
pub mod Budget
pub mod Id3
pub mod Riff
pub mod Policy
