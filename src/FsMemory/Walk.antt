-- ===== src/FsMemory/Walk.antt =====
-- `getTreeNode` (FSWrapper/FSWrapper/FSMemory.cpp) and what it leaves in the view.
pub mod Steps
pub mod Ends
unfoldable pub use distributed_sns.FsMemory.Walk.Steps.*
unfoldable pub use distributed_sns.FsMemory.Walk.Ends.*
