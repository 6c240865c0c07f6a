-- ===== src/Fs/FileType.antt =====
-- fs/file-type.h, fs/signature-states.h, and the switch on the file type bits of a mode that
-- fs/file.cc and server/servermodule.cc make.
use ndnfs_port.Prelude.{ℕ, ◌/◌, ◌%◌, ℤ, pos, ◌==◌, if◌then◌else◌}

pub data FileType : Type 0 where
  door symbolic_link block_special character_special fifo_special : FileType
  event_port unix_socket regular directory : FileType

unfoldable pub file_type_code : FileType → ℤ
file_type_code door = pos 0
file_type_code symbolic_link = pos 1
file_type_code block_special = pos 2
file_type_code character_special = pos 3
file_type_code fifo_special = pos 4
file_type_code event_port = pos 5
file_type_code unix_socket = pos 6
file_type_code regular = pos 7
file_type_code directory = pos 8

pub data SignatureState : Type 0 where
  ready not_ready ready_old : SignatureState

unfoldable pub signature_state_code : SignatureState → ℤ
signature_state_code ready = pos 0
signature_state_code not_ready = pos 1
signature_state_code ready_old = pos 2

-- `S_IFMT & mode`, over the four bits above the permissions.
unfoldable pub format : ℕ → ℕ
format mode = mode / 4096 % 16

abbrev pub s_ififo : ℕ
s_ififo = 1

abbrev pub s_ifchr : ℕ
s_ifchr = 2

abbrev pub s_ifdir : ℕ
s_ifdir = 4

abbrev pub s_ifreg : ℕ
s_ifreg = 8

abbrev pub s_iflnk : ℕ
s_iflnk = 10

abbrev pub s_ifsock : ℕ
s_ifsock = 12

-- The type that mknod stores. A directory or a block device is stored as a regular file.
unfoldable pub file_type_of_mode : ℕ → FileType
unfolding format
file_type_of_mode mode =
    if format mode == s_ifdir
    then regular
    else if format mode == s_ifchr
    then character_special
    else if format mode == s_ifreg
    then regular
    else if format mode == s_iflnk
    then symbolic_link
    else if format mode == s_ifsock
    then unix_socket
    else if format mode == s_ififo
    then fifo_special
    else regular
