-- ===== src/Ui.antt =====
-- src/ui: what the user interface computes apart from its drawing.
pub mod ScrollingBuffer
pub mod View
pub mod Live
pub mod PacketTable
pub mod FlowTable
pub mod Dashboard
