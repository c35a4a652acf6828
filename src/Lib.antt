-- ===== src/Lib.antt =====
-- Verification library of fls, a tool that downloads a disk image and writes it to a block device, or
-- flashes partitions with it by the fastboot program.
--
-- Parts, and the files that model them:
--
--   Channel    src/fls/byte_channel.rs, the channel between download and decompressor that is bounded
--              in bytes: its sides take steps on a shared state. `Channel/Reader` is `ChannelReader`
--              of src/fls/stream_utils.rs.
--   Flash      src/fls/from_url.rs, the task of `flash_from_url` that takes decompressed data as it
--              comes, tells its format, and sends commands to the block writer: `run_task` is its
--              loop, `handle_detected_format`, `process_sparse_data`, `execute_write_commands` and
--              `write_regular_data` the functions of these names, `flash` the task with its writer.
--   Download   src/fls/from_url.rs, the loop of `flash_from_url` that downloads, retries and resumes,
--              with `start_download` of src/fls/http.rs and src/fls/download_error.rs. What the server
--              answers is a list of attempts.
--   Detect     src/fls/format_detector.rs, `FormatDetector`, which buffers the first bytes.
--   Magic      src/fls/magic_bytes.rs and src/fls/compression.rs, the compression of data by its first
--              bytes or by its name, and what a sample of it decompresses to.
--   Simg       src/fls/simg.rs, the Android sparse image format. `Format` has the data types and the
--              functions `parse_header` and `parse_chunk_header`; `Parser` has `SparseParser`, its
--              state as a record and one round of the loop of `process` as `step`; `Image` has an
--              independent description of an image (a header and chunks, their bytes, and the writes
--              that they ask for).
--   Writer     src/fls/block_writer.rs, `BlockWriter` with its buffer, `write_fill_pattern`, and the
--              task of `AsyncBlockWriter` as `run`; `Writer/Disk` is the unbuffered writer that it
--              refines.
--   Oci        src/fls/oci, images that come from a container registry; text is a list of code points
--              (`Oci/Text`), and a hash map or set an association list or a list (`Oci/Maps`).
--     Reference   src/fls/oci/reference.rs, the parser and printer of image references.
--     MediaType, Manifest
--                 src/fls/oci/manifest.rs, media types and the choice of a layer or platform.
--     Auth        src/fls/oci/auth.rs, credentials, `parse_www_authenticate`, and the URL of a token.
--     Registry    src/fls/oci/registry.rs, `RegistryClient` with `request_token`, and the way of
--                 `connect_and_resolve` from the name of an image to its manifest, with all requests.
--     Partition   names of partitions (`sanitize_partition_name`) and titles of layers, with the
--                 schemas of src/fls/annotation_schema.rs.
--     Blob        src/fls/oci/from_oci.rs, the download of a blob: `fetch_blob_with_detection` reads
--                 its first bytes, `retry_download_loop` sends it on and resumes where the stream
--                 broke, and `Blob/Pipeline` has `run_blob_pipeline` with the decompressor and the
--                 file of `stream_blob_to_file`.
--     Extract     src/fls/oci/from_oci.rs, `extract_files_by_annotations_with_overrides_to_dir`: one
--                 round of the loop over layers is `on_layer`, `apply_overrides` is that over
--                 overrides, and `Extract/Whole` is the function.
--     Tar         src/fls/oci/from_oci.rs, the disk image within an archive: `matches_pattern`,
--                 `extract_tar_stream_impl` as `extract_entries`, and `MagicDetectingReader`
--                 (`Tar/Peek`), which tells the compression of the archive.
--     Route       src/fls/oci/from_oci.rs, the middle of `flash_from_oci`: `choose_route` checks the
--                 layer, reads its first bytes, and sends it to the device or through Tar.
--     Write       src/fls/oci/from_oci.rs, the tasks that write decompressed data to the device, with
--                 the second copies there of what Flash models.
--   Fastboot   src/fls/fastboot.rs: the commands that the fastboot program is run with and where they
--              stop, and in `Fastboot/Process` which files are extracted and mapped to partitions.
--
-- The download loop feeds a decompressor through Channel, and the decompressor feeds the flash task.
-- The flash task feeds Detect, then either Simg or the writer; Simg's commands go to the writer. An
-- image from a registry goes the same way by Blob, Tar and Write, which use Detect, Simg, Writer and
-- the download errors of Download. Fastboot takes the files that Extract leaves, or those whose
-- names its patterns match; Extract takes names by Partition and manifests by Oci/Manifest.
-- `Base` has what the others share: Boolean tests and lists over the native numbers, bytes, and the
-- little-endian words. The tests of a part stand in its `Tests`.
--
-- State and effects: a mutable struct is a record that each operation takes and returns. A file is a
-- function from offsets to bytes, a cursor, and a list that says which of the operations to come fail;
-- a device that is full or broken is such a list. The channel from the task to the writer is what was
-- sent and how many sends succeed before the writer is gone. A panic is a value of the result, for an
-- unwrap and, in `Simg`, for an index, slice or drain out of range too.
--
-- What stands outside of the code is a parameter: what a server of blobs answers is a list of
-- answers, each a function of the offset asked for where one is, and what a registry answers on the
-- way to a manifest a function of the requests; a reader of JSON is a function of a text; a
-- decompressor is a function of what it was sent; an archive, which another package reads, is the list
-- of its entries; the fastboot program is a list of outcomes, one for each run; an extraction of a
-- blob into a file is a function of how many came before it, so that any of them may fail.
--
-- Bounds and fuel: a u32 or u64 sum that may wrap has its `%` written out, and a subtraction on
-- `usize` is `wrapping_sub`. The loop of `SparseParser::process` has a unit of fuel for each byte of
-- the input, the loop of `BlockWriter::write` one for each byte of data, that of
-- `write_fill_pattern` one for each byte of the fill, and that of `peek_bytes` one for each byte that
-- is wanted; every round but the last takes a byte, so that is enough. The loops that ask a server
-- again end where the list of its answers ends, which is a result of its own. Block size, alignment
-- and sync interval are the source's.
--
-- Not modelled: the text of messages, progress output, the command line, HTTP with its redirects, TLS
-- and base64; the URL of a blob; the program of a decompressor and how processes, tasks and temporary
-- directories are set up; the loops that report progress while they wait for the tasks; how a device
-- is opened, what the system refuses under direct I/O, and macOS; the reading of JSON.
pub mod Base
pub mod Simg
pub mod Detect
pub mod Writer
pub mod Flash
pub mod Download
pub mod Channel
pub mod Oci
pub mod Fastboot
pub mod Magic
