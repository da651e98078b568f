-- ===== src/Fsal/Local/Attributes.antt =====
-- `metadata_to_attr`
use arcticwolf.Base.{◌*◌, ◌%◌, ◌^◌, if◌then◌else◌}
use arcticwolf.Fsal.Types.{
  FileType, FileAttributes, regular_file, directory, block_device, char_device, symbolic_link,
  socket, named_pipe,
}
use arcticwolf.Fsal.Os.{OsFileType, Metadata}

unfoldable pub file_type_of : OsFileType → FileType
file_type_of t =
    if t.is_dir
    then directory
    else if t.is_file
    then regular_file
    else if t.is_symlink
    then symbolic_link
    else if t.is_fifo
    then named_pipe
    else if t.is_char_device
    then char_device
    else if t.is_block_device
    then block_device
    else if t.is_socket
    then socket
    else regular_file

-- The casts to `u32` cut off; the size in blocks wraps around.
unfoldable pub metadata_to_attr : Metadata → FileAttributes
unfolding file_type_of
metadata_to_attr m = record {
  ftype = file_type_of m.file_type;
  mode = m.mode;
  nlink = m.nlink % 2 ^ 32;
  uid = m.uid;
  gid = m.gid;
  size = m.len;
  used = m.blocks * 512 % 2 ^ 64;
  rdev = (m.rdev % 2 ^ 32, 0);
  fsid = m.dev;
  fileid = m.ino;
  atime = record { seconds = m.atime; nseconds = m.atime_nsec };
  mtime = record { seconds = m.mtime; nseconds = m.mtime_nsec };
  ctime = record { seconds = m.ctime; nseconds = m.ctime_nsec };
}
