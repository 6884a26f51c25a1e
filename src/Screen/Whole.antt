-- ===== src/Screen/Whole.antt =====
-- From web/serialtap.js's makeScreen on, no row of either buffer holds the right half of a wide character
-- without its left half.
pub mod Rows
pub mod Motion
pub mod Csi
pub mod Fit
pub mod Parser
