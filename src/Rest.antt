-- ===== src/Rest.antt =====
-- marc_rest_client.h and marc_rest_client.cpp: the requests to the Mail.ru Cloud.
pub mod Hex
pub mod Params
pub mod Transfers
pub mod Endpoints
pub mod Session
pub mod Shard
pub mod Calls
pub mod Login
pub mod Server
