-- ===== src/Filestore.antt =====
-- internal/filestore/store.go: the bytes of attachments. A file is staged under a random key, and is
-- moved to its final place once the database owns it. A path is its key: the key's form is checked
-- before it becomes part of one. The sniffer of `net/http` and SHA-256 are parameters.
pub mod Names
pub mod Store
pub mod Keeping
pub mod Finalizing
pub mod Tests
pub mod Untouched
