-- ===== src/Container.antt =====
-- container/src: the server that runs SlateDB in a container.
pub mod Host
pub mod App
pub mod Measures
pub mod Files
pub mod Requests
pub mod Status
pub mod BindingStore
mod Tests
