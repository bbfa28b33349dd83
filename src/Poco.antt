-- ===== src/Poco.antt =====
-- include/abb_librws/rws_poco_client.h and src/rws_poco_client.cpp: HTTP and WebSocket communication.
pub mod Types
pub mod Cookies
pub mod Work
pub mod Http
pub mod Socket
pub mod Threads
pub mod Session
