-- ===== src/Ext2.antt =====
-- src/filesystem/ext2.c: the structures, the device and its caches, the bitmaps, inodes and their
-- blocks, directories, formatting, and the four operations on files.
pub mod Layout
pub mod Device
pub mod Bitmap
pub mod Nodes
pub mod Content
pub mod Directory
pub mod Format
pub mod Read
pub mod Write
pub mod Delete
pub mod Path
pub mod Refusals
mod Tests
mod EntryTests
mod RefusalTests
mod FileTests
