-- ===== src/Response.antt =====
-- Response controls: src/response_controls.rs. `Controls` has the three controls of a buffered
-- response, `Stream` the adapter that caps a streamed one.
pub mod Controls
pub mod Stream
