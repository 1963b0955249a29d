-- ===== src/Guards.antt =====
-- The requests of the proxy and its VRAM guards (app/main.py).
pub mod App
pub mod ChatRoute
pub mod AudioRoute
pub mod GpuRoutes
mod Clears
mod Placement
mod ChatPlaced
mod AfterChat
mod AfterAudio
mod Emptied
mod AfterGpu
mod Steps
mod Shrinks
mod Reached
mod Refusals
pub mod Admin
mod Loaded
mod Tests
