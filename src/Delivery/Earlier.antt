-- ===== src/Delivery/Earlier.antt =====
-- fs/file.cc and server/servermodule.cc together: interests for a version that is no longer the
-- current one.
use ndnfs_port.Prelude.{
  ℕ, ◌<◌, pos, Bytes, ◌≡◌, ◌≢◌, ◌∙◌, ap, sym, subst, some, [], ◌++◌, take, length, arith,
  to_int-of_lt,
}
use ndnfs_port.Exec.{ok, run}
use ndnfs_port.External.{Env}
use ndnfs_port.External.Types.{Name, FileRow}
use ndnfs_port.External.Posix.{o_rdwr, overwrite}
use ndnfs_port.External.Documented.{Documented}
use ndnfs_port.World.{World}
use ndnfs_port.Fs.Config.{abs_path}
use ndnfs_port.Fs.File.{access_mode}
use ndnfs_port.Fs.File.Written.{ndnfs_write-content}
use ndnfs_port.Fs.Release.{ndnfs_release}
use ndnfs_port.Fs.Release.Signing.{signature_of}
use ndnfs_port.Fs.Release.Publishing.{IsPublished, release-eq, ndnfs_release-IsPublished}
use ndnfs_port.Server.Config.{server_path}
use ndnfs_port.Server.Name.Forms.{ArePlain, joined}
use ndnfs_port.Server.Content.Serving.{segment_reply}
use ndnfs_port.Server.Interest.{on_interest}
use ndnfs_port.Server.Interest.Segments.{segment_interest, on_interest-segment_reply}
use ndnfs_port.Delivery.Written.{saved}

module _ (E : Env) (D : Documented E) (path : Bytes) (flags : ℕ) where
  -- A signature that a path's version has, beside the content that the file has at the time.
  abbrev HasSigned : ℕ → ℕ → Bytes → Bytes → World E → Type 0
  HasSigned v k signature b w =
      (E.segments.select w.segments (path, pos v, pos k) ≡ some signature)
      × (D.view.content w.os (abs_path E path) ≡ some b)

  -- A release of another version leaves it.
  release-HasSigned :
      (w : World E) (v now k : ℕ) {row : FileRow} {b signature : Bytes}
      → E.files.select w.files path ≡ some row
      → access_mode flags ≢ 0
      → length b < 2147483648
      → now < 2147483648
      → v ≢ now
      → HasSigned v k signature b w
      → HasSigned v k signature b (run (ndnfs_release E path flags now) w).1
        × ((run (ndnfs_release E path flags now) w).1.sent ≡ w.sent)
  unfolding IsPublished
  release-HasSigned w v now k {row} {b} found writes small recent other (signed, there) =
      let (o, e, same) = release-eq E D path w flags now found writes there small in
      let (_, _, _, _, kept) =
        ndnfs_release-IsPublished E D path w flags now found writes there small in
      (
        (
          kept (path, pos v, pos k) (λ j _ key. other (ground (arith, to_int-of_lt now recent)))
              ∙ signed,
          ap (λ r. D.view.content r.1.os (abs_path E path)) e ∙ same (abs_path E path) ∙ there,
        ),
        ap (λ r. r.1.sent) e,
      )

module _ (E : Env) (D : Documented E) (cs : Name) (path buf : Bytes) (i v now flags : ℕ) where
  -- Segment k of version v of a file, below 2 ^ 18, has the signature over its name and that part of the
  -- content that the file had. The file has a row and can be opened; less than 2 GiB are written to
  -- it, of which `pwrite` writes `n` bytes, at least one, and the file, which then has less than
  -- 2 GiB, is released after writing at another time than `v`; both are below 2 ^ 31. The server
  -- finds the file in the same directory, and the client's name for it, of components without
  -- markers, spells the server's prefix and the path, which is not empty. An interest for that
  -- segment of version `v` is then answered, if at all, with that part of the new content, under the
  -- signature over that part of the old content.
  pub on_interest-earlier :
      (w : World E) (k : ℕ) (old : Bytes) {row : FileRow} {b : Bytes} {n fd : ℕ} {o o' : E.posix.Os}
      → E.segments.select w.segments (path, pos v, pos k) ≡ some (signature_of E path (pos v) old k)
      → E.files.select w.files path ≡ some row
      → access_mode flags ≢ 0
      → D.view.content w.os (abs_path E path) ≡ some b
      → E.posix.open_file w.os (abs_path E path) o_rdwr 0 ≡ (ok fd, o)
      → E.posix.pwrite o fd buf (pos i) ≡ (ok n, o')
      → 0 < n
      → length buf < 2147483648
      → server_path E path ≡ abs_path E path
      → length (overwrite b i (take n buf)) < 2147483648
      → v < 2147483648
      → now < 2147483648
      → v ≢ now
      → ArePlain cs
      → joined E cs ≡ E.fs_prefix ++ path
      → path ≢ []
      → k < 262144
      → (on_interest E (segment_interest E cs v k) (saved E D cs path buf i now flags w)).1.sent
        ≡ w.sent
          ++ segment_reply E
              (segment_interest E cs v k)
              (overwrite b i (take n buf))
              k
              (signature_of E path (pos v) old k)
  on_interest-earlier w k old {row} {b} {n} signed found writes there opens written more small_buf
        same_dir small early recent other plain spelled some_path low =
      let (p, e, content, _) =
        ndnfs_write-content E D.view D.reads D.writes path buf i w (λ gone. cc) there opens written
          more small_buf in
      let w' : World E = record w { os = p } in
      let w'' = (run (ndnfs_release E path flags now) w').1 in
      let ((signed', content'), sent) =
        release-HasSigned E D path flags w' v now k found writes small recent other
          (signed, content) in
      let (_, f, _) =
        on_interest-segment_reply E D cs path v k w'' plain spelled some_path early low signed'
          (ap (D.view.content w''.os) same_dir ∙ content') small in
      let reply =
        segment_reply E (segment_interest E cs v k) (overwrite b i (take n buf)) k
          (signature_of E path (pos v) old k) in
      subst
        (λ r.
          (on_interest E (segment_interest E cs v k)
            (run (ndnfs_release E path flags now) r.1).1).1.sent
          ≡ w.sent ++ reply)
        (sym e) (ap (λ r. r.1.sent) f ∙ ap (λ s. s ++ reply) sent)
