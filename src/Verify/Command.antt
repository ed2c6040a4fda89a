-- ===== src/Verify/Command.antt =====
-- The exit code of the command.
use limnifs_py.Prelude.{ℕ, arith, ◌≡◌, ◌↔◌, refl, ap, ◌∙◌, List, All}
use limnifs_py.Errors.{
  Error, Result, ok, err, truncated, bad_magic, corrupt, unsupported, value_error, struct_error,
  overflow_error, out_of_fuel, IsParseError,
}
use limnifs_py.Wire.{IsByte}
use limnifs_py.Locator.{CharClasses}
use limnifs_py.Merkle.{Blake3}
use limnifs_py.Verify.{Report, verify_bytes, contents, exit_code, cmd_verify}
use limnifs_py.Verify.Layout.{Manifest, manifest_bytes, IsManifest}
use limnifs_py.Verify.Complete.{verify_bytes-ok}
use limnifs_py.Verify.Sound.{verify_bytes_sound, verify_bytes_err}

-- The bytes are an image of the format, with whatever stands behind it.
abbrev pub IsImage : CharClasses → List ℕ → Type 0
IsImage chars buf =
    (m : Manifest) × (extra : List ℕ) × IsManifest chars m × (buf ≡ manifest_bytes m extra)

exit_code-err : (e : Error) → IsParseError e → exit_code (err e) ≡ ok 1
exit_code-err (truncated have need) p = refl
exit_code-err (bad_magic found expected) p = refl
exit_code-err corrupt p = refl
exit_code-err unsupported p = refl
exit_code-err value_error p = absurd p
exit_code-err struct_error p = absurd p
exit_code-err overflow_error p = absurd p
exit_code-err out_of_fuel p = absurd p

exit_code-outcome :
    (Good : Type 0) (r : Result Report)
    → ((report : Report) → r ≡ ok report → Good)
    → ((e : Error) → r ≡ err e → IsParseError e)
    → (Good → (report : Report) × (r ≡ ok report))
    → ((exit_code r ≡ ok 0) ↔ Good) × (¬ Good → exit_code r ≡ ok 1)
exit_code-outcome Good (ok report) sound errors complete =
    (((λ h. sound report refl), (λ g. refl)), (λ bad. absurd (bad (sound report refl))))
exit_code-outcome Good (err e) sound errors complete =
    let code = exit_code-err e (errors e refl) in
    (
      ((λ h. absurd (ground (arith, h, code))), (λ g. let (report, h) = complete g in cc h)),
      (λ bad. code),
    )

module _ (blake3 : Blake3) (chars : CharClasses) where
  -- On a file of bytes the command exits with 0 exactly if the file is an image of the format,
  -- valid sections in order and whatever stands behind them, and on every other file of bytes it
  -- exits with 1; no exception leaves it. A feature flag that is required and that the reader does
  -- not know makes no difference.
  pub cmd_verify_iff :
      (buf : List ℕ)
      → All IsByte buf
      → ((cmd_verify blake3 chars (contents buf) ≡ ok 0) ↔ IsImage chars buf)
        × (¬ IsImage chars buf → cmd_verify blake3 chars (contents buf) ≡ ok 1)
  unfolding cmd_verify
  cmd_verify_iff buf y =
      exit_code-outcome (IsImage chars buf) (verify_bytes blake3 chars buf)
        (λ report h.
          let (m, extra, valid, layout, reported) =
            verify_bytes_sound blake3 chars buf report y h in
          (m, extra, valid, layout))
        (λ e h. verify_bytes_err blake3 chars buf e y h)
        (λ (m, extra, valid, layout).
          (_, ap (verify_bytes blake3 chars) layout ∙ verify_bytes-ok blake3 chars m extra valid))
