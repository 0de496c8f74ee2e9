-- ===== src/Lib.antt =====
-- ext3u is ext3 with an undelete list: a file that is removed gets an entry in a ring of blocks of a
-- hidden inode, and its blocks are freed only when its entry is dropped from the ring's start. The
-- commands urm, uls and ustats reach the list by ioctls.
--
-- The parts and their files:
--   Common           numbers, lists, C memory as a function from offsets to bytes, error numbers
--   Undel.Layout     ext3u/undel.h: the superblock as a record, an entry as its bytes
--   Undel.Ring       the ring of blocks 1 to f_blocks and the walk from byte to byte
--   Undel.Disk       the buffers that the functions share, what the block layer and the journal decide,
--                    and the composition of calls that can fail
--   Undel.Skip       ext3u/undel.c: ext3u_skip_file, ext3u_check_skip_entry, ext3u_skip
--   Undel.Hash       ext3u_partial_hash, ext3u_hash
--   Undel.Path       ext3u_get_full_path, ext3u_get_file_name
--   Undel.Copy       the copy loops of ext3u_save and of the functions that read an entry
--   Undel.Super      ext3u_update_superblock, each of its parts a definition
--   Undel.Links      ext3u_update_entry, ext3u_delete_entry
--   Undel.Search     ext3u_permission, ext3u_get_first_entry, ext3u_search_entry, ext3u_get_entry,
--                    and ext3u_find_entry in its child Backward
--   Undel.Room       ext3u_free_old_entries
--   Undel.Save       ext3u_save
--   Undel.Restore    ext3u_restore_inode, and ext3u_lookup of ext3u/namei.c
--   Undel.Vfs        the operations of the directory cache, the journal and stock ext3 that a restore uses
--   Undel.Target     ext3u/namei.c: ext3u_mkdir, ext3u_get_target_directory
--   Undel.Create     ext3u/namei.c: ext3u_create, with ext3_should_retry_alloc of ext3u/balloc.c
--   Undel.Urm        ext3u/undel.c: ext3u_urm, which calls the search, the two above and the links
--   Undel.Ioctl      ext3u/ioctl.c: ext3u_do_uls, ext3u_do_ustats
--   Undel.Dispatch   ext3u/ioctl.c: ext3u_do_urm, ext3u_ioctl_uls, ext3u_ioctl_ustats, ext3u_ioctl_urm, and
--                    the undelete requests of ext3_ioctl
--   Ext3.BlockPath   ext3u/inode.c: ext3_block_to_path
--   Ext3.NameHash    ext3u/hash.c: TEA_transform, dx_hack_hash, str2hashbuf, ext3fs_dirhash
--   Ext3.Sparse      ext3u/balloc.c: test_root, ext3_group_sparse
--   Ext3.Directory   ext3u/dir.c: ext3_check_dir_entry; ext3u/namei.c: ext3_match, search_dirblock,
--                    add_dirent_to_buf, ext3_delete_entry
--   Utils.Mode       ext3u-utils/utils/uls_lib.c: ftypelet, strmode
--   Utils.Listing    uls_info_dispatcher on the buffer that Undel.Ioctl fills
--   Utils.Command    ext3u_uls_command, the loop of requests to ext3u_do_uls
--   Utils.Mounts     ext3u-utils/utils/ucommon.c: ext3u_check_mount_point, ext3u_search_mount_points
--   Utils.Urm        ext3u-utils/utils/urm.c: ext3u_clean_path
--   Utils.Recover    ext3u-utils/utils/urm.c: ext3u_urm_command and the main function
--   Utils.Main       ext3u-utils/utils/ustats.c: ext3u_ustats_command, and the main functions of uls.c and
--                    ustats.c
--   Utils.Config     ext3u-utils/utils/uconfig.c: get_size
-- Undel.Samples has undelete files for the tests. The children of a module hold its proofs, and Tests, ListTests and SaveTests
-- the theorems at concrete inputs.
--
-- A field of w bytes is cut to its width where it is stored, and 32-bit and 64-bit counters wrap. The
-- local int variables of the code are taken as natural numbers, with what a negative one would do
-- written out where the code reaches it; the room that a listing asks for is an int as its 32 bits. The kernel is given by parameters: which blocks can be read,
-- whether the superblock can be read again at the end of a restoration, whether a journal handle is there,
-- what copy_to_user leaves, what stands in the memory that malloc gives to a command, what ext3_new_inode returns, the size of struct ext3_inode and
-- the places of its fields, EXT3_DIR_REC_LEN, and half_md4_transform.
--
-- Loops are on fuel: a reading or writing loop gets two rounds more than it has bytes, the count of
-- freed bytes as many as there are blocks and bytes in two blocks, and the loop over entries as many as
-- the superblock counts. The listing loop takes its fuel as an argument, and as many rounds as the list has
-- entries are enough; the loop of requests of uls takes it too, and one round is enough for a list that
-- fits the buffer. ext3u_create tries five times at most, and test_root gets one round more than its
-- argument.
--
-- Not modelled: locks and reference counts, the journal beyond its start, the copies from and to user
-- space, the stock parts of ext3, of the user commands the parsing of options and the printing,
-- and e2fsprogs, a copy of another project.
pub mod Common
pub mod Undel
pub mod Ext3
pub mod Utils
