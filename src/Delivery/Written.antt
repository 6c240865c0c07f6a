-- ===== src/Delivery/Written.antt =====
-- fs/file.cc and server/servermodule.cc together: what ndnfs_write writes is what onInterestCallback
-- serves once the file is released.
use ndnfs_port.Prelude.{
  ℕ, ◌<◌, ◌/◌, ◌+◌, pos, Bytes, ◌≡◌, ◌≢◌, sym, subst, some, [], ◌++◌, take, length,
}
use ndnfs_port.Exec.{ok, run}
use ndnfs_port.External.{Env}
use ndnfs_port.External.Types.{Name, FileRow}
use ndnfs_port.External.Posix.{o_rdwr, overwrite}
use ndnfs_port.External.Documented.{Documented}
use ndnfs_port.World.{World, contents}
use ndnfs_port.Fs.Config.{abs_path}
use ndnfs_port.Fs.File.{access_mode, ndnfs_write}
use ndnfs_port.Fs.File.Written.{ndnfs_write-content}
use ndnfs_port.Fs.Release.{ndnfs_release}
use ndnfs_port.Server.Config.{server_path}
use ndnfs_port.Server.Name.Forms.{ArePlain, joined}
use ndnfs_port.Delivery.{on_interests, segment_interests, ndnfs_release-on_interests}

module _ (E : Env) (D : Documented E) (cs : Name) (path buf : Bytes) (i now flags : ℕ) where
  -- The file is written to and then released.
  abbrev pub saved : World E → World E
  saved w = (run (ndnfs_release E path flags now) (run (ndnfs_write E path buf (pos i)) w).1).1

  -- Less than 2 GiB are written to a file that has a row, whose `open` succeeds, at an offset, and
  -- `pwrite` writes `k` bytes, at least one. The file, which then has less than 2 GiB, is released
  -- after writing, at a time below 2 ^ 31. The server finds it in the same directory, and the
  -- client's name for it, of components without markers, spells the server's prefix and the path,
  -- which is not empty. If interests for all segments of the new version then arrive in order, the
  -- contents of the packets sent, one behind the other, are the old content with the first `k`
  -- bytes of the buffer in their place.
  pub ndnfs_write-on_interests :
      (w : World E) {row : FileRow} {b : Bytes} {k fd : ℕ} {o o' : E.posix.Os}
      → E.files.select w.files path ≡ some row
      → D.view.content w.os (abs_path E path) ≡ some b
      → E.posix.open_file w.os (abs_path E path) o_rdwr 0 ≡ (ok fd, o)
      → E.posix.pwrite o fd buf (pos i) ≡ (ok k, o')
      → 0 < k
      → length buf < 2147483648
      → access_mode flags ≢ 0
      → server_path E path ≡ abs_path E path
      → length (overwrite b i (take k buf)) < 2147483648
      → now < 2147483648
      → ArePlain cs
      → joined E cs ≡ E.fs_prefix ++ path
      → path ≢ []
      → contents
          (on_interests E
            (saved w)
            (segment_interests E cs now 0 (length (overwrite b i (take k buf)) / 8192 + 1))).sent
        ≡ contents w.sent ++ overwrite b i (take k buf)
  ndnfs_write-on_interests w {row} {b} {k} found there opens written more small writes same_dir
        small' recent plain spelled some_path =
      let (p, e, content, _) =
        ndnfs_write-content E D.view D.reads D.writes path buf i w (λ gone. cc) there opens written
          more small in
      subst
        (λ r.
          contents
            (on_interests E (run (ndnfs_release E path flags now) r.1).1
              (segment_interests E cs now 0 (length (overwrite b i (take k buf)) / 8192 + 1))).sent
          ≡ contents w.sent ++ overwrite b i (take k buf))
        (sym e)
        (ndnfs_release-on_interests E D cs path now flags (record w { os = p }) found writes content
          same_dir small' recent plain spelled some_path)
