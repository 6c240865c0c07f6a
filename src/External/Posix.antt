-- ===== src/External/Posix.antt =====
-- The system calls. `Os` is all that lies behind them: files, directories and descriptors. A call
-- gives a `Sys` value; `strcpy` of a path, `errno` and closed directory streams leave no trace here.
use ndnfs_port.Prelude.{
  ◌/◌, ◌%◌, [], ◌∷◌, ◌++◌, zero, suc, ◌≤◌, ◌<◌, ℕ, ◌+◌, ℤ, pos, negsuc, Bytes, ◌≡◌, Option, some,
  List, take, drop, length,
}
use ndnfs_port.Exec.{Sys, ok, err}
use ndnfs_port.External.Types.{Stat, Dirent, TimeVal}

pub record Posix : Type 1 where
  pub Os : Type 0
  -- open(path, flags, mode): a descriptor
  pub open_file : Os → Bytes → ℕ → ℕ → Sys ℕ × Os
  pub close_file : Os → ℕ → Sys (Unit {0}) × Os
  -- pread(fd, buf, size, offset): the bytes read
  pub pread : Os → ℕ → ℕ → ℤ → Sys Bytes
  -- pwrite(fd, buf, size, offset): how many bytes were written
  pub pwrite : Os → ℕ → Bytes → ℤ → Sys ℕ × Os
  pub truncate : Os → Bytes → ℤ → Sys (Unit {0}) × Os
  pub unlink : Os → Bytes → Sys (Unit {0}) × Os
  pub mkfifo : Os → Bytes → ℕ → Sys (Unit {0}) × Os
  pub mknod : Os → Bytes → ℕ → ℕ → Sys (Unit {0}) × Os
  pub utimes : Os → Bytes → TimeVal → TimeVal → Sys (Unit {0}) × Os
  pub readlink : Os → Bytes → ℕ → Sys Bytes
  pub symlink : Os → Bytes → Bytes → Sys (Unit {0}) × Os
  pub link : Os → Bytes → Bytes → Sys (Unit {0}) × Os
  pub rename : Os → Bytes → Bytes → Sys (Unit {0}) × Os
  -- the filled `struct statvfs`, as bytes
  pub statvfs : Os → Bytes → Sys Bytes
  pub access : Os → Bytes → ℕ → Sys (Unit {0})
  pub stat : Os → Bytes → Sys Stat
  pub lstat : Os → Bytes → Sys Stat
  pub chmod : Os → Bytes → ℕ → Sys (Unit {0}) × Os
  pub mkdir : Os → Bytes → ℕ → Sys (Unit {0}) × Os
  pub rmdir : Os → Bytes → Sys (Unit {0}) × Os
  -- opendir, readdir until it gives NULL, closedir
  pub read_dir : Os → Bytes → Sys (List Dirent)
  -- What a `struct stat` on the stack holds before anything was written to it.
  pub uninitialised : Os → Stat

-- Observations by which the laws speak of `Os`.
pub record View (P : Posix) : Type 0 where
  -- the content of the regular file at a path, if there is one that can be read
  pub content : P.Os → Bytes → Option Bytes
  -- the content of the regular file behind a descriptor
  pub fd_content : P.Os → ℕ → Option Bytes
  -- how many descriptors are open
  pub descriptors : P.Os → ℕ

abbrev pub o_rdonly : ℕ
o_rdonly = 0

-- What POSIX documents of reading a regular file.
pub record Reads (P : Posix) (V : View P) : Type 0 where
  pub open-content :
      (o : P.Os) (p : Bytes) {b : Bytes}
      → V.content o p ≡ some b
      → (fd : ℕ) × (o' : P.Os) × (P.open_file o p o_rdonly 0 ≡ (ok fd, o'))
        × (V.fd_content o' fd ≡ some b)
        × ((q : Bytes) → V.content o' q ≡ V.content o q)
  pub pread-content :
      (o : P.Os) (fd : ℕ) {b : Bytes} (n i : ℕ)
      → V.fd_content o fd ≡ some b
      → P.pread o fd n (pos i) ≡ ok (take n (drop i b))
  -- A negative offset is EINVAL.
  pub pread-negative :
      (o : P.Os) (fd : ℕ) {b : Bytes} (n i : ℕ)
      → V.fd_content o fd ≡ some b
      → P.pread o fd n (negsuc i) ≡ err 22
  pub close-content :
      (o : P.Os) (fd : ℕ) (q : Bytes) → V.content (P.close_file o fd).1 q ≡ V.content o q
  pub stat-content :
      (o : P.Os) (p : Bytes) {b : Bytes}
      → V.content o p ≡ some b
      → (s : Stat) × (P.stat o p ≡ ok s) × (s.st_size ≡ length b)

-- The bytes `x` in the place of those from offset `i` on; a gap in front of them is filled with zeros.
abbrev pub overwrite : Bytes → ℕ → Bytes → Bytes
overwrite b zero x = x ++ drop (length x) b
overwrite [] (suc i) x = 0 ∷ overwrite [] i x
overwrite (c ∷ b) (suc i) x = c ∷ overwrite b i x

abbrev pub o_rdwr : ℕ
o_rdwr = 2

-- O_CREAT | O_EXCL | O_WRONLY
abbrev pub o_create : ℕ
o_create = 193

-- What POSIX documents of making a regular file, and of writing to one: of the buffer the first
-- bytes are written, as many as `pwrite` says.
pub record Writes (P : Posix) (V : View P) : Type 0 where
  -- A new file is empty, and its owner can read it if the mode says so.
  pub create-content :
      (o : P.Os) (p : Bytes) (mode : ℕ) {fd : ℕ} {o' : P.Os}
      → mode / 256 % 2 ≡ 1
      → P.open_file o p o_create mode ≡ (ok fd, o')
      → V.content o' p ≡ some []
  pub pwrite-content :
      (o : P.Os) (p buf : Bytes) (i : ℕ) {b : Bytes} {k fd : ℕ} {o' o'' : P.Os}
      → V.content o p ≡ some b
      → P.open_file o p o_rdwr 0 ≡ (ok fd, o')
      → P.pwrite o' fd buf (pos i) ≡ (ok k, o'')
      → (k ≤ length buf) × (0 < k → V.content o'' p ≡ some (overwrite b i (take k buf)))

-- What POSIX documents of the number of open descriptors.
pub record Counts (P : Posix) (V : View P) : Type 0 where
  pub open-err :
      (o : P.Os) (p : Bytes) (f m : ℕ) {e : ℕ} {o' : P.Os}
      → P.open_file o p f m ≡ (err e, o')
      → V.descriptors o' ≡ V.descriptors o
  -- A descriptor that `open` gave and that nothing has closed is given up by `close`.
  pub open-close :
      (o : P.Os) (p : Bytes) (f m : ℕ) {fd : ℕ} {o' : P.Os}
      → P.open_file o p f m ≡ (ok fd, o')
      → V.descriptors (P.close_file o' fd).1 ≡ V.descriptors o
  pub open-grows :
      (o : P.Os) (p : Bytes) (f m : ℕ) {fd : ℕ} {o' : P.Os}
      → P.open_file o p f m ≡ (ok fd, o')
      → V.descriptors o' ≡ V.descriptors o + 1
  pub pwrite-close :
      (o : P.Os) (fd g : ℕ) (b : Bytes) (i : ℤ)
      → V.descriptors (P.close_file (P.pwrite o fd b i).1 g).1 ≡ V.descriptors (P.close_file o g).1
  pub pwrite-descriptors :
      (o : P.Os) (fd : ℕ) (b : Bytes) (i : ℤ)
      → V.descriptors (P.pwrite o fd b i).1 ≡ V.descriptors o

-- What POSIX documents of the calls that take a path: they leave the open descriptors as they are.
pub record Paths (P : Posix) (V : View P) : Type 0 where
  pub truncate-descriptors :
      (o : P.Os) (p : Bytes) (n : ℤ) → V.descriptors (P.truncate o p n).1 ≡ V.descriptors o
  pub unlink-descriptors : (o : P.Os) (p : Bytes) → V.descriptors (P.unlink o p).1 ≡ V.descriptors o
  pub mkfifo-descriptors :
      (o : P.Os) (p : Bytes) (m : ℕ) → V.descriptors (P.mkfifo o p m).1 ≡ V.descriptors o
  pub mknod-descriptors :
      (o : P.Os) (p : Bytes) (m dev : ℕ) → V.descriptors (P.mknod o p m dev).1 ≡ V.descriptors o
  pub utimes-descriptors :
      (o : P.Os) (p : Bytes) (a m : TimeVal) → V.descriptors (P.utimes o p a m).1 ≡ V.descriptors o
  pub symlink-descriptors :
      (o : P.Os) (p q : Bytes) → V.descriptors (P.symlink o p q).1 ≡ V.descriptors o
  pub link-descriptors : (o : P.Os) (p q : Bytes) → V.descriptors (P.link o p q).1 ≡ V.descriptors o
  pub rename-descriptors :
      (o : P.Os) (p q : Bytes) → V.descriptors (P.rename o p q).1 ≡ V.descriptors o
  pub chmod-descriptors :
      (o : P.Os) (p : Bytes) (m : ℕ) → V.descriptors (P.chmod o p m).1 ≡ V.descriptors o
  pub mkdir-descriptors :
      (o : P.Os) (p : Bytes) (m : ℕ) → V.descriptors (P.mkdir o p m).1 ≡ V.descriptors o
  pub rmdir-descriptors : (o : P.Os) (p : Bytes) → V.descriptors (P.rmdir o p).1 ≡ V.descriptors o
