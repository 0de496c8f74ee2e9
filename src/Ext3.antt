-- ===== src/Ext3.antt =====
-- ext3u/inode.c, ext3u/hash.c, ext3u/balloc.c, ext3u/dir.c and ext3u/namei.c, the parts of ext3 that the undelete list stands on and that compute
-- something of their own: the path of a block in a file's tree, the hash of a directory entry, the groups with a
-- superblock, and the entries in a block of a directory.
pub mod BlockPath
pub mod NameHash
pub mod Sparse
pub mod Directory
mod Tests
