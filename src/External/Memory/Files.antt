-- ===== src/External/Memory/Files.antt =====
-- Files in memory, with the system calls on them.
use ndnfs_port.Prelude.{
  ◌≢◌, inl, inr, Option-cases, eqb_iff, ◌≤◌, true, ◌∙◌, take-of_le, ℕ, ◌+◌, ◌-◌, ℤ, pos, negsuc,
  Bytes, ◌≡◌, refl, Option, none, some, [], take, drop, length, eqb, ◌<◌, ◌==◌, ==_iff,
  if◌then◌else◌, arith, ap,
}
use ndnfs_port.Exec.{Sys, ok, err}
use ndnfs_port.External.Types.{Stat}
use ndnfs_port.External.Posix.{Posix, View, Reads, Writes, overwrite, o_rdwr, o_create}

-- Files by their paths, and the paths of the descriptors given so far.
pub record Disk : Type 0 where
  pub contents : Bytes → Option Bytes
  pub fd_path : ℕ → Bytes
  pub fresh : ℕ
  pub count : ℕ

abbrev behind : Disk → ℕ → Option Bytes
behind o fd = o.contents (o.fd_path fd)

abbrev with_content : Disk → Bytes → Option Bytes → Disk
with_content o p b = record o { contents = λ q. if eqb p q then b else o.contents q }

abbrev opened : Disk → Bytes → Sys ℕ × Disk
opened o p = (
  ok o.fresh,
  record o {
    fd_path = λ fd. if fd == o.fresh then p else o.fd_path fd;
    fresh = o.fresh + 1;
    count = o.count + 1;
  },
)

abbrev pub open_disk : Disk → Bytes → ℕ → Sys ℕ × Disk
open_disk o p flags = elim (o.contents p) [
  | some _ ↦ if flags == o_create then (err 17, o) else opened o p
  | none ↦ if flags == o_create then opened (with_content o p (some [])) p else (err 2, o)
]

abbrev pread_disk : Disk → ℕ → ℕ → ℤ → Sys Bytes
pread_disk o fd n offset = elim (behind o fd) [
  | none ↦ err 9
  | some b ↦ elim offset [ pos i ↦ ok (take n (drop i b)) | negsuc _ ↦ err 22 ]
]

abbrev pub pwrite_disk : Disk → ℕ → Bytes → ℤ → Sys ℕ × Disk
pwrite_disk o fd bytes offset = elim (behind o fd) [
  | none ↦ (err 9, o)
  | some b ↦ elim offset [
    | pos i ↦ (ok (length bytes), with_content o (o.fd_path fd) (some (overwrite b i bytes)))
    | negsuc _ ↦ (err 22, o)
  ]
]

abbrev stat_disk : Disk → Bytes → Sys Stat
stat_disk o p = elim (o.contents p) [
  | none ↦ err 2
  | some b ↦ ok (record { st_mode = 33188; st_size = length b; st_mtime = 0 })
]

-- The calls that no test needs end with ENOSYS.
abbrev pub disk : Posix
disk = record {
  Os = Disk;
  open_file = λ o p f _. open_disk o p f;
  close_file = λ o _. (ok tt, record o { count = o.count - 1 });
  pread = pread_disk;
  pwrite = pwrite_disk;
  truncate = λ o p n. (ok tt, o);
  unlink = λ o p. (ok tt, with_content o p none);
  mkfifo = λ o _ _. (err 38, o);
  mknod = λ o _ _ _. (err 38, o);
  utimes = λ o _ _ _. (err 38, o);
  readlink = λ _ _ _. err 38;
  symlink = λ o _ _. (err 38, o);
  link = λ o _ _. (err 38, o);
  rename = λ o p q. (ok tt, with_content (with_content o p none) q (o.contents p));
  statvfs = λ _ _. err 38;
  access = λ _ _ _. ok tt;
  stat = stat_disk;
  lstat = stat_disk;
  chmod = λ o _ _. (ok tt, o);
  mkdir = λ o _ _. (err 38, o);
  rmdir = λ o _. (err 38, o);
  read_dir = λ _ _. ok [];
  uninitialised = λ _. record { st_mode = 0; st_size = 77; st_mtime = 0 };
}

abbrev pub disk_view : View disk
disk_view = record {
  content = λ o p. o.contents p;
  fd_content = behind;
  descriptors = λ o. o.count;
}

pread_disk-pos :
    (o : Disk) (fd : ℕ) {b : Bytes} (n i : ℕ)
    → behind o fd ≡ some b
    → pread_disk o fd n (pos i) ≡ ok (take n (drop i b))
pread_disk-pos o fd n i e = ground arith

pread_disk-negsuc :
    (o : Disk) (fd : ℕ) {b : Bytes} (n i : ℕ)
    → behind o fd ≡ some b
    → pread_disk o fd n (negsuc i) ≡ err 22
pread_disk-negsuc o fd n i e = ground arith

stat_disk-content :
    (o : Disk) (p : Bytes) {b : Bytes}
    → o.contents p ≡ some b
    → stat_disk o p ≡ ok (record { st_mode = 33188; st_size = length b; st_mtime = 0 })
stat_disk-content o p e = ground arith

open_disk-content :
    (o : Disk) (p : Bytes) (f : ℕ) {b : Bytes}
    → o.contents p ≡ some b
    → f ≢ 193
    → open_disk o p f ≡ opened o p
open_disk-content o p f e other = ground arith

opened-content :
    (o : Disk) (p : Bytes) {b : Bytes}
    → o.contents p ≡ some b
    → behind (opened o p).1 o.fresh ≡ some b
opened-content o p e = rw ((==_iff o.fresh o.fresh).1 refl) e

pub disk-Reads : Reads disk disk_view
disk-Reads = record {
  open-content = λ o p {b} e. (
    o.fresh,
    (opened o p).1,
    open_disk-content o p 0 e (λ h. omega arith),
    opened-content o p e,
    λ q. refl,
  );
  pread-content = λ o fd {b} n i e. pread_disk-pos o fd n i e;
  pread-negative = λ o fd {b} n i e. pread_disk-negsuc o fd n i e;
  close-content = λ o fd q. refl;
  stat-content = λ o p {b} e.
      (record { st_mode = 33188; st_size = length b; st_mtime = 0 }, stat_disk-content o p e, refl);
}

fd_path-opened : (o : Disk) (p : Bytes) → (opened o p).1.fd_path o.fresh ≡ p
fd_path-opened o p = rw ((==_iff o.fresh o.fresh).1 refl) refl

pwrite_disk-opened :
    (o : Disk) (p bytes : Bytes) (i : ℕ) {b : Bytes}
    → o.contents p ≡ some b
    → pwrite_disk (opened o p).1 o.fresh bytes (pos i)
      ≡ (ok (length bytes), with_content (opened o p).1 p (some (overwrite b i bytes)))
pwrite_disk-opened o p bytes i there = rw (opened-content o p there, fd_path-opened o p) refl

eqb_refl : (p : Bytes) → eqb p p ≡ true
eqb_refl p = (eqb_iff p p).1 refl

ok-inv :
    {A : Type 0} {x y : A} {d e : Disk} {r : Sys A × Disk}
    → r ≡ (ok x, d)
    → r ≡ (ok y, e)
    → (x ≡ y) × (d ≡ e)
ok-inv h k = (cc, cc)

pwrite_disk-content :
    (o : Disk) (p bytes : Bytes) (i : ℕ) {b : Bytes} {k fd : ℕ} {o' o'' : Disk}
    → o.contents p ≡ some b
    → open_disk o p o_rdwr ≡ (ok fd, o')
    → pwrite_disk o' fd bytes (pos i) ≡ (ok k, o'')
    → (k ≤ length bytes) × (0 < k → o''.contents p ≡ some (overwrite b i (take k bytes)))
pwrite_disk-content o p bytes i {b} {k} {fd} {o'} {o''} there opens written =
    let (same_fd, same_disk) = ok-inv (open_disk-content o p 2 there (λ h. omega arith)) opens in
    let again : pwrite_disk (opened o p).1 o.fresh bytes (pos i) ≡ pwrite_disk o' fd bytes (pos i) =
      ap (λ d. pwrite_disk d o.fresh bytes (pos i)) same_disk
      ∙ ap (λ f. pwrite_disk o' f bytes (pos i)) same_fd in
    let (n, d) = ok-inv (pwrite_disk-opened o p bytes i there) (again ∙ written) in
    let all : take k bytes ≡ bytes = take-of_le k bytes (omega arith) in
    (omega arith, λ _. rw (← d, eqb_refl p, all) refl)

open_disk-new :
    (o : Disk) (p : Bytes)
    → o.contents p ≡ none
    → open_disk o p o_create ≡ opened (with_content o p (some [])) p
open_disk-new o p e = rw (e, open_disk) refl

with_content_self : (o : Disk) (p : Bytes) (b : Option Bytes) → (with_content o p b).contents p ≡ b
with_content_self o p b = rw (eqb_refl p) refl

open_disk-create :
    (o : Disk) (p : Bytes) {fd : ℕ} {o' : Disk}
    → open_disk o p o_create ≡ (ok fd, o')
    → o'.contents p ≡ some []
open_disk-create o p {fd} {o'} made = elim (Option-cases (o.contents p)) [
  | inl free ↦
      let (_, same) = ok-inv (open_disk-new o p free) made in
      rw (← same) (with_content_self o p (some []))
  | inr (_, taken) ↦
      let bad : ◌≡◌ {A = Sys ℕ × Disk} (err 17, o) (ok fd, o') = rw (taken, open_disk) at made in cc
]

pub disk-Writes : Writes disk disk_view
disk-Writes = record {
  create-content = λ o p mode {fd} {o'} readable made. open_disk-create o p made;
  pwrite-content = λ o p bytes i {b} {k} {fd} {o'} {o''} there opened written.
      pwrite_disk-content o p bytes i there opened written;
}
