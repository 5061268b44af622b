-- ===== src/Lib.antt =====
-- The asset updater client. It registers with a server, over HTTP or a TCP connection with framed
-- messages, leases export tasks, and for each one downloads and unwraps an asset bundle, runs the
-- asset studio on it, decodes the sound banks and videos of the game, builds a manifest of the files
-- and uploads them in an archive.
--
-- The parts and the files that model them:
-- - Hca: internal/cricodecs/hca/clhca.go, the decoder of HCA audio, up to the end of its header. The bit
--   reader (Bitreader: bitreaderPeek, bitreaderRead, bitreaderSkip), the checksum (Crc:
--   crc16Checksum), the cipher tables (Cipher: cipherInit and its parts), the hearing curve (Ath:
--   athInit and its parts), the object (State: ClHCA), the chunks (Header: decodeChunks and its
--   parts), what follows them (Validate: validateAndInitialize, DecodeHeader) the object as its
--   callers see it (Info: GetInfo, SetKey, IsOurFile), and, of clhcadecoder.go, the bands of a frame and
--   the noise that fills them (Frame: calculateResolution, reconstructNoise), the values that a frame
--   packs (Unpack: unpackScaleFactors, unpackIntensity, calculateScore) and the bands that it leaves out
--   (Highband: reconstructHighFrequency, applyIntensityStereo, applyMsStereo). The chunk decoders share
--   the bit reader by reference; Decode passes it on explicitly. DecodeHeader uses all of these.
-- - Acb: internal/cricodecs/acb. Reader is the stream with typed reads, Utf the tables of a sound bank,
--   which it reads with that, Fields the typed fields of a row, Track and Tracklist the tracks that a
--   bank's tables describe, and Afs the archive of waves beside it.
-- - Binary: internal/utils/binary.go, BinaryStream, typed reads whose errors its callers mostly drop.
-- - Usm: internal/cricodecs/usm, the container of videos. Masks has the masks of video and audio
--   (getMask, maskVideo, maskAudio), Table the tables (getUTFTable, readColumnData), Header the header
--   (parseUSMHeader and its parts), Chunks the stream of chunks (extractUSMChunks, processChunk) and
--   Extract the whole (ExtractUSM, ExtractUSMFile), of usm.go; Metadata is metadata.go: the sections
--   (ReadMetadata), their values as text (Text) and the reader at an offset (Offset). Both read a file
--   with Binary, and Metadata reads its tables with Acb.
-- - Unpack: internal/unpack. Obfuscator is obfuscator.go; of unpacker.go, Paths has the names of
--   results, Manifest the manifest, the archive and the last test before the upload, Concurrency the
--   semaphores, Download the retries of a download, Fetch one attempt of it with its temporary file,
--   which runs the streaming unwrapper, Export the command line of the asset studio, Action the calls
--   that take slots of the semaphores, with the pools of workers, and Process the work on a bundle from
--   its download to the archive, which composes the others, with the pool for sound banks and, of
--   internal/exporter/acb.go, that for the waves of one; Wav has the WAV files that are left over. Exporter is internal/exporter/converter.go, the runs of ffmpeg.
-- - Config: internal/config/config.go, the configuration and its defaults, from which the semaphores
--   take their capacities.
-- - Tcpclient: internal/tcpclient/protocol.go, the frames of the TCP connection; Protocol: the types of
--   internal/protocol/protocol.go that the other parts use.
-- - Client: internal/client/worker.go and internal/client/tcp_worker.go. Active has
--   the set of active tasks, Http the calls of the server's interface with the retries of an upload,
--   Task the run of one task with its reports, its cleaning up and the recovery from a panic, Memory the
--   limit of the memory and its log, Tcp one connection with its handshake and its messages, and Pool
--   the goroutines that run the tasks, as a step relation. A new TCP connection has a new semaphore, so
--   that Pool is the tasks of one connection there.
-- - Base: lists and tests on the native numbers, bits, integers, readers and writers of `io`; Tests:
--   runs on concrete inputs.
--
-- A Go function that may fail is a function into Outcome: a value, an error or a run-time panic. An
-- index or a shift count out of range and a division by zero panic, as in Go. A `uint` has 64 bits,
-- and its wrap-around is written out where a subtraction can go below zero. Loops with a bound are
-- recursion on the rounds left; the loop of writeAll runs on the length of its slice as fuel, and
-- each round takes a byte at least, so that it is enough; the commands of a sound bank have a round for
-- each byte and take three a round; the scaling of a number for the log has 64 rounds and needs six;
-- the loop over the chunks of a video has a round more than the file has bytes, and each round passes
-- the four bytes of a signature at least.
--
-- Not modelled: the transforms of HCA and the tables of its gains, which are floats (the arithmetic of
-- floats is an argument of the rest of the frame decoder), the writing of WAV files, the extraction of
-- ACB files to the disk, what ffmpeg and the asset studio do, HTTP itself, the timers of the worker,
-- logging, and the start of the program. JSON, `url.Parse`, regular expressions, the host's name, the
-- answer to a download, whether a call of the system fails and the walk over a directory are arguments
-- of the definitions that use them, and so are the programs that are run; the retries of a download
-- take what each attempt returns, by its number. The jobs of a pool run one after the other, in an
-- order that is an argument, and the number of its workers is left out. When DecodeHeader
-- fails, the model does not give the partly written object back.
pub mod Acb
pub mod Base
pub mod Binary
pub mod Client
pub mod Config
pub mod Exporter
pub mod Hca
pub mod Protocol
pub mod Tcpclient
pub mod Unpack
pub mod Usm
pub mod Tests
