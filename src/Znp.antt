-- ===== src/Znp.antt =====
-- components/znp_transport: the link to the CC2652P7 coprocessor.
pub mod Mt
pub mod Frame
pub mod Codec
pub mod Link
pub mod Session
pub mod Expander
pub mod Setup
