-- ===== src/Tests.antt =====
-- Runs of the models on concrete inputs, by the part of the program that they exercise.
mod Codec
mod Realms
mod Results
mod Numbers
mod Connection
pub mod Proxy
mod Parts
mod Texts
mod Stores
mod Files
mod Buffers
mod Sessions
