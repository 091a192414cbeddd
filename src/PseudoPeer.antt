-- ===== src/PseudoPeer.antt =====
-- src/pseudo_peer: the sources of blocks and the store in front of them. Files, the clock and the
-- network are arguments; the caches of other crates are the interfaces of `Caches`.
pub mod Lines
pub mod Scan
pub mod ScanLaws
pub mod Caches
pub mod LocalCache
pub mod HlNode
pub mod HlNodeLaws
pub mod LineText
pub mod BackfillLaws
pub mod Ingest
pub mod IngestLaws
pub mod LastLine
pub mod LastLineText
pub mod LastLineLaws
pub mod SingleLine
pub mod Store
pub mod StoreLaws
pub mod Answers
pub mod Batches
pub mod BatchLaws
pub mod Archive
pub mod Service
pub mod ServiceLaws
pub mod PollerLaws
