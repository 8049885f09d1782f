-- ===== src/Os/Windows/Pid.antt =====
-- The record of the router on Windows: what `holder` reads is what `announce` wrote.
use zapd.Prelude.{ℕ, ◌≤◌, ◌≡◌, ◌⊎◌, inl, inr, refl, ap, ◌∙◌, some}
use zapd.Text.{Str}
use zapd.Text.Trim.{trim-to_decimal}
use zapd.Text.Decimal.{parse_u32, parse_uint-to_decimal}
use zapd.Io.{Error, Result, ok, err, Result-cases}
use zapd.Os.Windows.{Fs, announce, holder}

-- An announcement either succeeds, and then every process is told the pid that was announced, or it
-- fails, and then every process is told what it was told before.
pub holder-announce :
    (pid : ℕ) (fs : Fs) (recorded : Result Str)
    → pid ≤ 4294967295
    → (((announce pid fs recorded).0 ≡ ok tt) × (holder (announce pid fs recorded).1 ≡ some pid))
      ⊎ ((e : Error) × ((announce pid fs recorded).0 ≡ err e)
          × ((announce pid fs recorded).1 ≡ recorded))
unfolding announce holder
holder-announce pid fs recorded h = elim (Result-cases fs.created) [
  | inr (e, c) ↦ rw (c, announce) (inr (e, refl, refl))
  | inl (t, c) ↦ elim (Result-cases fs.written) [
    | inr (e, w) ↦ rw (c, announce, w) (inr (e, refl, refl))
    | inl (u, w) ↦ elim (Result-cases fs.renamed) [
      | inr (e, m) ↦ rw (c, announce, w, m) (inr (e, refl, refl))
      | inl (v, m) ↦
          rw (c, announce, w, m)
            (inl
              (refl, ap parse_u32 (trim-to_decimal pid) ∙ parse_uint-to_decimal 4294967295 pid h))
    ]
  ]
]
