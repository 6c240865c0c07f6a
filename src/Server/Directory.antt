-- ===== src/Server/Directory.antt =====
-- server/servermodule.cc: sendDirMetaBrowserFriendly, and sendDirMeta, which nothing calls.
use ndnfs_port.Prelude.{
  ℕ, ◌-◌, ℤ, pos, negsuc, Bytes, Option, none, some, List, [], ◌∷◌, ◌++◌, map, length, take, ltb,
  to_int, codes, ◌==◌, if◌then◌else◌,
}
use ndnfs_port.Exec.{Exec, ok, err, pure, return, gets, ◌>>=◌, ◌>>◌}
use ndnfs_port.External.{Env}
use ndnfs_port.External.Types.{Packet, Stat, Dirent, DirInfo}
use ndnfs_port.World.{World, try_read, put_data}
use ndnfs_port.Fs.Config.{seg_size}
use ndnfs_port.Fs.FileType.{
  FileType, file_type_code, regular, directory, character_special, symbolic_link, unix_socket,
  fifo_special, format, s_ifdir, s_ifchr, s_ifreg, s_iflnk, s_ifsock, s_ififo,
}
use ndnfs_port.Server.Config.{
  default_freshness_period, dir_component_name, content_meta_string, server_path,
}
use ndnfs_port.Server.Html.{has_ending, directory_page}
use ndnfs_port.Server.Meta.{meta_name}

-- The switch on the type bits; here a directory has a type of its own.
pub entry_type : ℕ → FileType
unfolding format
entry_type mode =
    if format mode == s_ifdir
    then directory
    else if format mode == s_ifchr
    then character_special
    else if format mode == s_ifreg
    then regular
    else if format mode == s_iflnk
    then symbolic_link
    else if format mode == s_ifsock
    then unix_socket
    else if format mode == s_ififo
    then fifo_special
    else regular

-- A trailing "_list" is cut off.
pub query_path : Bytes → Bytes
unfolding has_ending content_meta_string
query_path path =
    if has_ending path content_meta_string
    then take (length path - length content_meta_string) path
    else path

module _ (E : Env) where
  -- `lstat` into a structure that keeps its value where the call fails.
  pub lstat_into : E.posix.Os → Stat → Bytes → Stat
  lstat_into o old path = elim (E.posix.lstat o path) [ ok st ↦ st | err _ ↦ old ]

  -- The type found for each entry is not used. The name of the packet has the path as it was asked for.
  unfoldable pub send_dir_page : Bytes → Exec (World E) ℤ
  unfolding lstat_into query_path server_path directory_page meta_name
  send_dir_page path = do
    let dir_path = server_path E (query_path path)
    listed ← try_read E (λ o. E.posix.read_dir o dir_path)
    elim listed [
      | err _ ↦ return (negsuc 0)
      | ok found ↦ do
        st ← gets (λ w. lstat_into w.os (E.posix.uninitialised w.os) dir_path)
        let packet : Packet = record {
          name = meta_name E path dir_component_name (to_int st.st_mtime);
          content = directory_page (query_path path) (map (λ (de : Dirent). de.d_name) found);
          final_block_id = none;
          freshness_period = some default_freshness_period;
        }
        put_data E packet (E.ndn.sign packet)
        pure (pos 0)
    ]

  -- The message's entries. Each name is looked up as it stands, against the working directory.
  pub dir_infos : E.posix.Os → Stat → List Dirent → List DirInfo
  unfolding lstat_into entry_type file_type_code
  dir_infos o st [] = []
  dir_infos o st (de ∷ rest) =
      let st' = lstat_into o st de.d_name in
      record { path = de.d_name; file_type = file_type_code (entry_type st'.st_mode) }
      ∷ dir_infos o st' rest

  -- The content of the packet, `none` where the message is larger than a segment.
  pub dir_content : List DirInfo → Option Bytes
  unfolding codes
  dir_content [] = some (codes "Empty folder.\n" ++ (0 ∷ []))
  dir_content (d ∷ ds) =
      let wire = E.ndn.serialize_dir (d ∷ ds) in
      if ltb seg_size (length wire) then none else some wire

  unfoldable send_dir_meta : Bytes → Exec (World E) ℤ
  unfolding lstat_into dir_infos dir_content server_path meta_name
  send_dir_meta path = do
    let dir_path = server_path E path
    listed ← try_read E (λ o. E.posix.read_dir o dir_path)
    elim listed [
      | err _ ↦ return (negsuc 0)
      | ok found ↦ do
        st ← gets (λ w. lstat_into w.os (E.posix.uninitialised w.os) dir_path)
        infos ← gets (λ w. dir_infos w.os st found)
        elim (dir_content infos) [
          | none ↦ return (negsuc 0)
          | some wire ↦ do
            let packet : Packet = record {
              name = meta_name E path dir_component_name (to_int st.st_mtime);
              content = wire;
              final_block_id = none;
              freshness_period = some default_freshness_period;
            }
            put_data E packet (E.ndn.sign packet)
            pure (pos 0)
        ]
    ]
