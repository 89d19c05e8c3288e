-- ===== src/Posix/Opening.antt =====
-- Two names of which one is the name of a file that the other is not.
use Prim.Native.String.{String}
use text.Mathlib.Text.{◌==◌ as str_eq}
use text.Mathlib.TextEquality.{eq_iff}
use textbooks.Base.{ℕ, ◌≡◌, ◌≢◌, sym, ap, ◌∙◌, false, some, inl, inr, Bool-cases}
use textbooks.Posix.Files.{View}

module _ (v : View) (old new : String) (i : ℕ) (source : v.named old ≡ some i)
    (differ : v.named new ≢ some i) where
  pub names_differ : str_eq new old ≡ false
  names_differ = elim (Bool-cases (str_eq new old)) [
    | inl same ↦ absurd (differ (ap v.named ((eq_iff new old).0 same) ∙ source))
    | inr other ↦ other
  ]

  pub names_differ_sym : str_eq old new ≡ false
  names_differ_sym = elim (Bool-cases (str_eq old new)) [
    | inl same ↦ absurd (differ (ap v.named (sym ((eq_iff old new).0 same)) ∙ source))
    | inr other ↦ other
  ]
