-- ===== src/Ext2/Refusals.antt =====
-- The errors of write and delete of src/filesystem/ext2.c: when each is answered.
