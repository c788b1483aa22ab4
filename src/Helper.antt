-- ===== src/Helper.antt =====
-- services/capture_client: the client of the helper process, which captures screens and reads windows. Its
-- messages, the lines they travel in, the table of pending requests, the loop that reads the helper's output and
-- one request from its registration to its answer.
pub mod Protocol
pub mod Codec
pub mod Router
pub mod Reader
pub mod Client
mod Examples
