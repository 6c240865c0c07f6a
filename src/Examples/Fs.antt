-- ===== src/Examples/Fs.antt =====
-- Small runs of the code under fs/.
use ndnfs_port.Prelude.{
  ◌⊎◌, ◌++◌, Bytes, String, eqb, suc, ◌+◌, ◌≤◌, pos, negsuc, neg, ◌≡◌, refl, none, some, [], ◌∷◌,
  List, length, codes, to_int, if◌then◌else◌, arith, ltb,
}
use ndnfs_port.Exec.{ok, err, run, returned}
use ndnfs_port.External.Memory.{memory, memory_documented, Disk}
use ndnfs_port.External.Table.{path_key, version_key, segment_key}
use ndnfs_port.World.{buffer}
use ndnfs_port.Fs.Config.{abs_path, enoent}
use ndnfs_port.Fs.Requests.{Request, serve, open_file, write}
use ndnfs_port.Fs.Release.{ndnfs_release}
use ndnfs_port.Fs.Release.Publishing
use ndnfs_port.Fs.Release.Overflow
use ndnfs_port.Fs.Requests.History
use ndnfs_port.Fs.Requests.{mknod, release, unlink}
use ndnfs_port.Fs.Segment.{unescape_slashes, find_escaped_slash}
use ndnfs_port.Fs.Segment.Escape
use ndnfs_port.Fs.File.{new_row, ndnfs_mknod, ndnfs_read, ndnfs_write}
use ndnfs_port.Fs.File.Outcomes
use ndnfs_port.Fs.File.Written
use ndnfs_port.Fs.File.Creation
use ndnfs_port.Fs.Release.Descriptors
use ndnfs_port.Fs.Requests.Descriptors as RequestDescriptors
use ndnfs_port.Mime.{mime_infer}
use ndnfs_port.Mime.Lookup
use ndnfs_port.Mime.Table.{inserted_pairs}
use ndnfs_port.Examples.{
  a_path, b_path, a_content, a_row, a_world, bare_world, a_row_found, a_content_found, writes,
  small, has_row, version_row, a_version_row, opened_disk, a_opens,
}

ndnfs_release-IsPublished_example :
    Publishing.IsPublished memory memory_documented a_path a_world
      (to_int 7)
      a_row
      a_content
      (run (ndnfs_release memory a_path 1 7) a_world)
ndnfs_release-IsPublished_example =
    Publishing.ndnfs_release-IsPublished memory memory_documented a_path a_world 1 7
      (a_row_found a_content) writes (a_content_found a_content) small

serve-version_example :
    memory.versions.select
      (serve memory a_world
        (mknod b_path 33188 0 9 ∷ release a_path 1 9 ∷ unlink a_path ∷ [])).versions
      (a_path, pos 5)
    ≡ some version_row
serve-version_example =
    History.serve-version memory memory_documented a_world
      (mknod b_path 33188 0 9 ∷ release a_path 1 9 ∷ unlink a_path ∷ []) (a_path, pos 5) refl
      a_version_row

ndnfs_release-outcome_example :
    (run (ndnfs_release memory a_path 1 7) a_world).0
    ≡ returned (if ltb (length a_content) 2147483648 then pos 0 else negsuc 21)
ndnfs_release-outcome_example =
    Overflow.ndnfs_release-outcome memory memory_documented a_path a_world 1 7
      (a_row_found a_content) writes (a_content_found a_content)

unescape_slashes_lem_example :
    (unescape_slashes (codes "a%2Fb") ≡ some (Escape.unescape (codes "a%2Fb")))
    × (find_escaped_slash (Escape.unescape (codes "a%2Fb")) ≡ none)
unescape_slashes_lem_example = Escape.unescape_slashes_lem (codes "a%2Fb")

ndnfs_mknod-again_example :
    (memory.files.select (run (ndnfs_mknod memory b_path 33188 0 9) bare_world).1.files b_path
      ≡ some (new_row b_path 33188 (to_int 9)))
    × (run
          (ndnfs_mknod memory b_path 33188 0 10)
          (run (ndnfs_mknod memory b_path 33188 0 9) bare_world).1
        ≡ (returned (neg enoent), (run (ndnfs_mknod memory b_path 33188 0 9) bare_world).1))
ndnfs_mknod-again_example =
    Creation.ndnfs_mknod-again memory memory_documented b_path 33188 0 9 bare_world 33188 0 10 refl

ndnfs_write-descriptors_example :
    (run (ndnfs_write memory a_path (b'x' ∷ []) (pos 0)) a_world).1.os.count
    ≡ elim (memory.posix.pwrite opened_disk 3 (b'x' ∷ []) (pos 0)).0 [ ok _ ↦ 0 | err _ ↦ 0 + 1 ]
ndnfs_write-descriptors_example =
    Outcomes.ndnfs_write-descriptors memory memory_documented.view memory_documented.counts a_path
      (b'x' ∷ []) (pos 0) a_world has_row a_opens

ndnfs_write-ndnfs_read_example :
    (p : Disk) × (run (ndnfs_write memory a_path (b'x' ∷ b'y' ∷ []) (pos 3)) a_world
      ≡ (returned (pos 2), record a_world { os = p }))
    × (memory_documented.view.content p (abs_path memory a_path)
        ≡ some (b'h' ∷ b'i' ∷ 0 ∷ b'x' ∷ b'y' ∷ []))
    × (q : Disk) × (run (ndnfs_read memory a_path 2 (pos 3)) (record a_world { os = p })
        ≡ (returned (pos 2), record a_world { os = q; out = buffer (b'x' ∷ b'y' ∷ []) }))
unfolding eqb
ndnfs_write-ndnfs_read_example =
    Written.ndnfs_write-ndnfs_read memory memory_documented.view memory_documented.reads
      memory_documented.writes a_path (b'x' ∷ b'y' ∷ []) 3 a_world has_row
      (a_content_found a_content) a_opens refl (omega arith) (omega arith)

mime_infer-first_example :
    (Lookup.IsDotless (codes "/a.scm") × (mime_infer (codes "/a.scm") ≡ (pos 0, [])))
    ⊎ ((front ext : Bytes) × (codes "/a.scm" ≡ front ++ (b'.' ∷ ext))
        × Lookup.IsDotless ext
        × ((Lookup.AreOther (b'.' ∷ ext) inserted_pairs
              × (mime_infer (codes "/a.scm") ≡ (pos 0, [])))
            ⊎ ((before after : List (String × String)) × (k v : String) × (inserted_pairs
                  ≡ before ++ ((k, v) ∷ after))
                × Lookup.AreOther (b'.' ∷ ext) before
                × (codes k ≡ b'.' ∷ ext)
                × (mime_infer (codes "/a.scm") ≡ (pos 1, codes v)))))
mime_infer-first_example = Lookup.mime_infer-first (codes "/a.scm")

mime_infer_bound_example : suc (length (mime_infer (codes "/a.scm")).1) ≤ 100
mime_infer_bound_example = Lookup.mime_infer_bound (codes "/a.scm")

ndnfs_release-descriptors_example :
    memory_documented.view.descriptors (run (ndnfs_release memory a_path 1 7) a_world).1.os
    ≡ (if ltb (length a_content) 2147483648 then 0 else 0 + 1)
ndnfs_release-descriptors_example =
    Descriptors.ndnfs_release-descriptors memory memory_documented a_path a_world 1 7
      (a_row_found a_content) writes (a_content_found a_content)

-- A write that fails for its offset, between open and release.
abbrev failing_session : List Request
failing_session =
    open_file a_path 1 6
    ∷ write a_path (b'x' ∷ []) (negsuc 0)
    ∷ release a_path 1 7
    ∷ unlink a_path
    ∷ []

serve-descriptors_example :
    (0 ≤ (serve memory a_world failing_session).os.count)
    × ((serve memory a_world failing_session).os.count
        ≤ 0 + RequestDescriptors.unclosed failing_session)
serve-descriptors_example =
    RequestDescriptors.serve-descriptors memory memory_documented.view memory_documented.counts
      memory_documented.paths a_world failing_session
