-- ===== src/Lib.antt =====
-- limnifs: the Python reference reader of the LimniFS format (limnifs/*.py).
--
-- The reader turns the bytes of an image into typed values. Every section has a module of its own
-- with a parser that takes a cursor and advances it; the slab reader walks the slabs of the drop
-- store; the Merkle root identifies an image by the hashes of its sections.
--
-- Which file models which part, by the names of the source in antt's spelling:
--   Errors           limnifs/error.py: the exceptions as a data type, and `Result`.
--   Wire             `struct.pack` and `struct.unpack` of little-endian unsigned integers.
--   Cursor           limnifs/cursor.py: `Cursor` is buffer and position; a parser is a function from a
--                    cursor to a result with the advanced cursor. Cursor.Reads and Cursor.Consumes
--                    hold the rules by which parsers are proved, Cursor.Loop the counted loops, and
--                    Cursor.Decodes the contract of a section parser, Cursor.Recognises that of
--                    a parser whose values have several encodings.
--   Base32           `base64.b32encode` and `b32decode`, with `rstrip`, `lower` and `upper`.
--   FormatTypes      limnifs/format_types.py: identifiers, representation, tier; FormatTypes.Text has
--                    the texts of identifiers.
--   Header           limnifs/header.py.
--   FeatureFlags     limnifs/feature_flags.py.
--   History          limnifs/history.py.
--   EcParams         limnifs/ec_params.py.
--   DmsPolicy        limnifs/dms_policy.py.
--   DeltaLinkage     limnifs/delta_linkage.py.
--   Utf8             `str.encode("utf-8")` and `bytes.decode("utf-8")`; a text is its code points.
--   Locator          limnifs/locator.py; Locator.Scheme has the grammar of RFC 3986.
--   SlabIndex        limnifs/slab_index.py.
--   MetadataReference limnifs/metadata_reference.py.
--   Inode            limnifs/inode.py; Inode.Content and Inode.Handles have the content by file type.
--   DirectoryNode    limnifs/directory_node.py; DirectoryNode.Hash has `dir_node_hash` of
--                    limnifs/metadata.py.
--   Metadata         limnifs/metadata.py.
--   SlabHeader       limnifs/slab_header.py.
--   DropRecord       limnifs/drop_record.py.
--   Codec            limnifs/codec.py.
--   SlabReader       limnifs/slab_reader.py.
--   Merkle           limnifs/merkle.py.
--   Summary          limnifs/cli.py: `_metadata_summary`; Python's `sorted` is an insertion sort.
--                    Summary.Described says what the summary should be, apart from that code.
--   Verify           limnifs/cli.py: `_verify_bytes`, which runs the parsers of the sections in order on
--                    one cursor and hashes the bytes between the positions, and `_cmd_verify`.
--   Builder          limnifs/builder.py: Builder.Spec the specifications, Builder the encoders and
--                    `ManifestBuilder`, Builder.Output the contract of code that appends to `out`.
-- In each parser's module, a child named Format holds the section's layout, written from the format's description
-- and apart from the parser, and the proof that the parser inverts it.
--
-- Bytes are natural numbers; theorems about arbitrary input assume that each is below 256. Python's
-- integers are natural numbers where the code has no negative ones. An exception carries no
-- cursor, since no code reads a cursor after one. A `for` loop with a `seen` set or another
-- carried value is `for_range`. The `while True` loop of `parse_slab` takes fuel, one round for each
-- byte of the slab; running out would be the error `out_of_fuel`, which is no ParseError.
--
-- Parameters: lz4.block (`Codec.Lz4`, a block decompresses to what it was made from) and blake3
-- (`Merkle.Blake3`, a digest is 32 bytes), the character classes of `str.isalpha` and `str.isalnum`
-- (`Locator.CharClasses`, which agree with ASCII), `str.upper` (`Base32.Upper`, likewise) and
-- `urlparse`.
--
-- A required feature flag is compared with no registry anywhere in the code, so no model has such a
-- test. Not modelled: the texts of messages, argument parsing and printing, and reading the file, whose
-- outcome is an argument of `cmd_verify`.
pub mod Prelude
pub mod Errors
pub mod Wire
pub mod Cursor
pub mod FormatTypes
pub mod Header
pub mod FeatureFlags
pub mod SlabHeader
pub mod DropRecord
pub mod Codec
pub mod SlabReader
pub mod Merkle
pub mod History
pub mod Utf8
pub mod EcParams
pub mod Locator
pub mod SlabIndex
pub mod MetadataReference
pub mod DmsPolicy
pub mod Verify
pub mod DeltaLinkage
pub mod DirectoryNode
pub mod Inode
pub mod Metadata
pub mod Builder
pub mod Summary
pub mod Base32
