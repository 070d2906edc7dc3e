-- ===== src/Backpressure.antt =====
-- pkg/utils/backpressure/controller.go: the controller in front of a queue, its adaptive variant and
-- the manager of controllers.
pub mod Controller
pub mod Flow
pub mod Interval
pub mod Manager
mod Examples
