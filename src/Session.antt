-- ===== src/Session.antt =====
-- firmware/esp32s3-dut/main/pqc_session.c and pqc_session.h: the PQC-IoT-1 client.
pub mod Layout
pub mod Compare
pub mod Cursor
pub mod Frames
pub mod Connection
pub mod Spec
pub mod Handshake
pub mod Keeps
pub mod Records
pub mod Client
