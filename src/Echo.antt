-- ===== src/Echo.antt =====
-- echo: the server that tells a client what it sent. HTTP/1.1 and HTTP/2 are read by hand there,
-- to see the order of the headers.
pub mod Http1
pub mod Http2
pub mod Navigation
mod Examples
