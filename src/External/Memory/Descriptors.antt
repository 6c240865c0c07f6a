-- ===== src/External/Memory/Descriptors.antt =====
-- The files in memory: what the system calls do to the number of open descriptors.
use ndnfs_port.Prelude.{ℕ, ◌+◌, ◌-◌, ℤ, Bytes, ◌≡◌, refl, arith, ap}
use ndnfs_port.Exec.{ok, err}
use ndnfs_port.External.Posix.{Counts, Paths}
use ndnfs_port.External.Memory.Files.{Disk, disk, disk_view, open_disk, pwrite_disk}

open_err :
    (o : Disk) (p : Bytes) (f : ℕ) {e : ℕ} {o' : Disk}
    → open_disk o p f ≡ (err e, o')
    → o'.count ≡ o.count
open_err o p f e = ground arith

open_ok :
    (o : Disk) (p : Bytes) (f : ℕ) {fd : ℕ} {o' : Disk}
    → open_disk o p f ≡ (ok fd, o')
    → o'.count ≡ o.count + 1
open_ok o p f e = ground arith

pwrite_count : (o : Disk) (fd : ℕ) (b : Bytes) (i : ℤ) → (pwrite_disk o fd b i).1.count ≡ o.count
pwrite_count o fd b i = ground arith

pub disk-Counts : Counts disk disk_view
disk-Counts = record {
  open-err = λ o p f m {e} {o'} h. open_err o p f h;
  open-close = λ o p f m {fd} {o'} h. let e = open_ok o p f h in omega arith;
  open-grows = λ o p f m {fd} {o'} h. open_ok o p f h;
  pwrite-close = λ o fd g b i. ap (λ n. n - 1) (pwrite_count o fd b i);
  pwrite-descriptors = λ o fd b i. pwrite_count o fd b i;
}

pub disk-Paths : Paths disk disk_view
disk-Paths = record {
  truncate-descriptors = λ o p n. refl;
  unlink-descriptors = λ o p. refl;
  mkfifo-descriptors = λ o p m. refl;
  mknod-descriptors = λ o p m dev. refl;
  utimes-descriptors = λ o p a m. refl;
  symlink-descriptors = λ o p q. refl;
  link-descriptors = λ o p q. refl;
  rename-descriptors = λ o p q. refl;
  chmod-descriptors = λ o p m. refl;
  mkdir-descriptors = λ o p m. refl;
  rmdir-descriptors = λ o p. refl;
}
