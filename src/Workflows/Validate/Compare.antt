-- ===== src/Workflows/Validate/Compare.antt =====
-- `compare_sites` (workflows/validate.py), and what a comparison finds.
use pytvt.Prelude.{
  ℕ, ◌+◌, ◌≡◌, refl, Bool, not, ◌&&◌, List, [], ◌∷◌, ◌++◌, arith, ◌==◌, Bool-cases, inl, inr,
  is_empty, is_empty-append, if◌then◌else◌,
}
use pytvt.Prelude.Int.{minus, minus_both, is_zero, minus-is_zero}
use pytvt.Workflows.Base.{str, num, int, is_blank, workflow_error, Text, Outcome, returns, raises}
use pytvt.Workflows.Validate.{SiteValidationResult, SiteComparisonResult, is_ok, is_same}

-- The offline counts are integers: total minus online.
differences_of : SiteValidationResult → SiteValidationResult → List Text
differences_of b c =
    (if not (b.channels_total == c.channels_total)
      then (str "channel count: baseline="
          ∷ num b.channels_total
          ∷ str " candidate="
          ∷ num c.channels_total
          ∷ [])
        ∷ []
      else [])
    ++ (if not (
          is_zero
            (minus_both b.channels_total b.channels_online c.channels_total c.channels_online))
        then (str "offline channels: baseline="
            ∷ int (minus b.channels_total b.channels_online)
            ∷ str " candidate="
            ∷ int (minus c.channels_total c.channels_online)
            ∷ [])
          ∷ []
        else [])

pub comparison : SiteValidationResult → SiteValidationResult → SiteComparisonResult
comparison baseline candidate = record {
  baseline_host = baseline.nvr_host;
  candidate_host = candidate.nvr_host;
  channel_count_delta = minus candidate.channels_total baseline.channels_total;
  offline_delta =
      minus_both candidate.channels_total candidate.channels_online baseline.channels_total
        baseline.channels_online;
  baseline_ok = is_ok baseline;
  candidate_ok = is_ok candidate;
  differences = differences_of baseline candidate;
}

pub compare_sites : SiteValidationResult → SiteValidationResult → Outcome SiteComparisonResult
compare_sites baseline candidate =
    if not (is_blank baseline.error)
    then raises
        (workflow_error (str "baseline " ∷ str baseline.nvr_host ∷ str ": " ∷ baseline.error))
    else if not (is_blank candidate.error)
    then raises
        (workflow_error (str "candidate " ∷ str candidate.nvr_host ∷ str ": " ∷ candidate.error))
    else returns (comparison baseline candidate)

-- Both sites ok, with as many channels and as many of them online.
abbrev pub is_alike : SiteValidationResult → SiteValidationResult → Bool
is_alike b c =
    is_ok b
    && is_ok c
    && c.channels_total == b.channels_total
    && c.channels_online == b.channels_online

minus_both-is_zero : (a b c d : ℕ) → is_zero (minus_both a b c d) ≡ (a + d == b + c)
unfolding minus_both
minus_both-is_zero a b c d = minus-is_zero (a + d) (b + c)

differences_of-empty :
    (b c : SiteValidationResult)
    → is_empty (differences_of b c) ≡ (
        b.channels_total == c.channels_total
        && is_zero
            (minus_both b.channels_total b.channels_online c.channels_total c.channels_online))
unfolding differences_of
differences_of-empty b c = elim (Bool-cases (b.channels_total == c.channels_total)) [
  | inl e ↦
      elim (Bool-cases (
        is_zero
          (minus_both b.channels_total b.channels_online c.channels_total c.channels_online))) [
            | inl f ↦ rw (e, f) refl
            | inr f ↦ rw (e, f) refl
          ]
  | inr e ↦ rw (e, is_empty-append) refl
]

-- The comparison of two validations without an error returns a result, which is `ok` exactly if
-- both sites are ok, with as many channels and as many of them online.
pub compare_sites-IsSame :
    (b c : SiteValidationResult)
    → b.error ≡ []
    → c.error ≡ []
    → (compare_sites b c ≡ returns (comparison b c)) × (is_same (comparison b c) ≡ is_alike b c)
unfolding compare_sites comparison
compare_sites-IsSame b c e f = (
  rw (e, f) refl,
  rw (minus-is_zero, minus_both-is_zero, differences_of-empty, minus_both-is_zero) (ground arith),
)
