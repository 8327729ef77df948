-- ===== src/Http.antt =====
-- The HTTP side of the GUI (src/GUI): requests, their parser, replies and the request handler.
pub mod Request
pub mod Parser
pub mod MimeTypes
pub mod Reply
pub mod Handler
pub mod Connection
pub mod Server
