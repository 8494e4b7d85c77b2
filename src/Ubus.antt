-- ===== src/Ubus.antt =====
-- ubus_socket.rs: the client of ubusd over its socket.
pub mod Result
pub mod Blob
pub mod Json
