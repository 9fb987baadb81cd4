-- ===== src/Files.antt =====
-- pages/Files/FilesPage.tsx: the directories of the file list, what is shown of one, and deletion.
pub mod Paths
pub mod Folders
pub mod Browse
pub mod Order
pub mod Texts
pub mod Reach
pub mod Deletion
