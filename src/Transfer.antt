-- ===== src/Transfer.antt =====
-- web/serialfs.js, saving and loading the work: the checksum, the encoding and the transfer.
pub mod Checksum
pub mod Payload
pub mod Shell
pub mod Console
pub mod Restore
pub mod Save
pub mod Quiet
pub mod Terminal
pub mod Recovery
pub mod Settled
pub mod Verified
pub mod Flow
pub mod Willing
pub mod Complete
pub mod Backed
pub mod Wait
