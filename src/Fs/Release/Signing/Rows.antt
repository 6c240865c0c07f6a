-- ===== src/Fs/Release/Signing/Rows.antt =====
-- Which rows of `file_segments` are there after the loop of ndnfs_release.
use ndnfs_port.Prelude.{
  ℕ, zero, suc, ◌+◌, ◌≤◌, ◌<◌, ℤ, pos, Bytes, ◌≡◌, ◌≢◌, refl, ◌∙◌, some, arith, inl, inr,
  Bool-cases, ◌==◌, ==_iff,
}
use ndnfs_port.External.{Env}
use ndnfs_port.External.Table.{SegmentKey, segment_key, IsLawful}
use ndnfs_port.External.Table.Rows.{select-replace_self, select-replace_ne}
use ndnfs_port.Fs.Release.Signing.{sign_rows, signature_of}

module _ (E : Env) (L : IsLawful E.segments) (path : Bytes) (ver : ℤ) (b : Bytes) where
  -- A row with another key than those of the segments signed stays as it is.
  pub select-sign_rows_ne :
      (i n : ℕ) (rows : E.segments.Rows) (key : SegmentKey)
      → ((k : ℕ) → i ≤ k → k < i + n → (path, ver, pos k) ≢ key)
      → E.segments.select (sign_rows E path ver b i n rows) key ≡ E.segments.select rows key
  unfolding sign_rows
  select-sign_rows_ne i zero rows key h = refl
  select-sign_rows_ne i (suc n) rows key h =
      select-sign_rows_ne (suc i) n _ key (λ k le lt. h k (omega arith) (omega arith))
      ∙ select-replace_ne E.segments L rows (path, ver, pos i) key (signature_of E path ver b i)
          (h i (omega arith) (omega arith))

  later_key : (i k : ℕ) → suc i ≤ k → ◌≢◌ {A = SegmentKey} (path, ver, pos k) (path, ver, pos i)
  later_key i k h e = let d : k ≡ i = cc e in omega arith

  -- Each segment signed has its signature.
  pub select-sign_rows :
      (i n : ℕ) (rows : E.segments.Rows) (k : ℕ)
      → i ≤ k
      → k < i + n
      → E.segments.select (sign_rows E path ver b i n rows) (path, ver, pos k)
        ≡ some (signature_of E path ver b k)
  unfolding sign_rows
  select-sign_rows i zero rows k le lt = absurd (omega arith)
  select-sign_rows i (suc n) rows k le lt = elim (Bool-cases (i == k)) [
    | inl e ↦ here ((==_iff i k).0 e)
    | inr e ↦ select-sign_rows (suc i) n _ k (ground arith) (omega arith)
  ]
    where
      here :
          i ≡ k
          → E.segments.select (sign_rows E path ver b i (suc n) rows) (path, ver, pos k)
            ≡ some (signature_of E path ver b k)
      here e = rw (← e) (
          select-sign_rows_ne (suc i) n _ (path, ver, pos i) (λ j le' _. later_key i j le')
          ∙ select-replace_self E.segments L rows (path, ver, pos i) (signature_of E path ver b i))
