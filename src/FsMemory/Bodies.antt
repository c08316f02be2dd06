-- ===== src/FsMemory/Bodies.antt =====
-- The bodies of `create`, `write` and `remove`, and what the three operations do to the view.
pub mod Views
pub mod Outcomes
pub mod Seen
unfoldable pub use distributed_sns.FsMemory.Bodies.Views.*
unfoldable pub use distributed_sns.FsMemory.Bodies.Outcomes.*
unfoldable pub use distributed_sns.FsMemory.Bodies.Seen.*
