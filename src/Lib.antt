-- ===== src/Lib.antt =====
-- VoE: a server of virtual disks. A disk is reached as ATA over Ethernet (AoE); its sectors stand in
-- a file or in a content-addressed store under a Merkle tree.
--
-- The parts, and the files that model them:
--
-- * Blob, Blob/File (src/blob/mod.rs, src/blob/file.rs): hashes, the trait `BlobStore` with its laws,
--   and `FileBlobStore` over a file system. `put` and `get` are the source's, with the temporary
--   file, its rename, and the test of the hash.
-- * Tree (src/storage/cas/tree.rs): `MerkleTree::lookup`, `MerkleTreeMut::update` and their helpers.
--   Tree/Update has `update`; the other files below Tree are its proof: Shape says what a tree in a
--   store is, Ascend follows the nodes that an update writes, Correct has the results.
-- * Storage, Storage/Laws, Storage/File (src/storage/mod.rs, src/storage/file.rs): the trait
--   `BlockStorage`, what its users rely on, and `FileBackend`, which fills that interface and is opened in
--   Storage/File/Open.
-- * Protocol (src/protocol/types.rs, parse.rs, build.rs): frames, `parse_frame` and `build_response`.
-- * Ata (src/protocol/ata.rs): `handle_ata_command` over any `BlockStorage`.
-- * Server (src/protocol/mod.rs, src/server/target.rs, src/server/listener.rs): the table of targets,
--   `handle_frame` in Server/Manager, and `handle_packet` in Server/Listener, which parses a packet,
--   has the targets answer it and sends what `build_response` makes of the answers; Server/Listener/Echo
--   and Server/Manager/Answers have the results.
-- * Storage/Cas (src/storage/cas/mod.rs): `CasBackend`, a block device over a blob store and a tree.
--   Block has the stored form of a block, Backend the device, Archive the constructors, `snapshot` and
--   `restore`; Laws, History, Restore, Fresh and Refines have the results.
-- * Storage/Snapshot (src/storage/cas/snapshot.rs): `SnapshotManager`.
-- * Cas (src/cas/protocol.rs, storage.rs, server.rs): the frames of the CAS service, its files by
--   hash, the answer to a request (`handle_command` in Cas/Server, the `match` of the source's
--   `handle_client`), and the loop of a connection (`handle_client` in Cas/Connection).
-- * Cas/Client (src/storage/cas_client.rs): a block device that keeps its sectors in a CAS service,
--   and the index of their hashes. Open has its constructor, Sectors its own two loops over sectors.
-- * Nbd (src/nbd/protocol.rs, src/nbd/server.rs): requests and replies in Nbd/Protocol, both
--   handshakes and the loop over a client's requests in Nbd/Server; the other files are proof.
-- * Config (src/config.rs): the configuration and its test.
--
-- How the code is modelled: a `Result` is an `Outcome`; a method that changes its object or the disk
-- is a function from the state to an outcome and the new state (Common/Io), so that what a failed
-- call has changed is seen. Bytes and words are numbers, with the wrap-around written out where the
-- source's word can overflow, and the range as a hypothesis where a theorem needs it.
--
-- Parameters, with what is taken of them: the file system (`FsLaws`) and an open file (`FileLaws`,
-- `LengthLaws`), as the documentation of the standard library has them; BLAKE3 (`HashLaws`: 32 bytes, not zero, no
-- collision among the blobs at hand); the hexadecimal coding (`HexLaws`; distinct hashes, distinct
-- texts); LZ4 (`CodecLaws`: what was compressed comes back); the JSON text and the file of the
-- snapshots (`SnapshotFileLaws`: what was saved is loaded), and those of the CAS client's index; the two ends of a connection (`ReaderLaws`:
-- a read takes the front of the bytes that are to come, and ends with `UnexpectedEof` when they are too
-- few; `WriterLaws`: what a write took comes after what was written); the network card's send; xxHash3; the clock; the TOML parser; the
-- texts of errors. Blob/File/Memory and the files of Tests have instances of them.
--
-- Loops: `calculate_depth` runs on 16 steps of fuel, and at most 9 levels are ever needed, so it
-- ends by its own test. The loops over a connection (Common/Loop) run on fuel; each round takes a
-- byte or ends, so fuel above the number of bytes that the client sends is enough. The split of data
-- into blocks has its length as fuel. The loops over levels, targets and sectors are structural.
--
-- Not modelled: the iSCSI target (src/iscsi); the programs (src/main.rs, src/bin), the opening of
-- connections and of the network interface, threads and logging, which are I/O.
pub mod Common
pub mod Blob
pub mod Tree
pub mod Protocol
pub mod Storage
pub mod Ata
pub mod Server
pub mod Cas
pub mod Nbd
pub mod Config
pub mod Tests
