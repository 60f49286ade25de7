-- ===== src/Vtuner.antt =====
-- The byte order of the messages of a virtual tuner, of vtuner/vtuner_common.c, and its data, of
-- vtuner/vtuner_client.c and vtuner/vtuner_server.c.
pub mod Messages
pub mod Local
pub mod Properties
pub mod Involution
pub mod Stream
pub mod Reading
pub mod Chunks
pub mod Frames
pub mod Delivery
