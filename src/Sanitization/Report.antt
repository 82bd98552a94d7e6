-- ===== src/Sanitization/Report.antt =====
-- src/engineering_memory/sanitization/sanitizer.py: the categories and the report.
use hermes_memory.Base.{
  ℕ, ◌+◌, ◌≤◌, ◌≡◌, refl, Bool, [], ◌∷◌, Dict, lookup, insert, all, All, leb, is_empty, ok, err,
  if◌then◌else◌, arith, Option, none, some,
}
use hermes_memory.Normalization.Values.{Valid, count_below_one}

pub data RedactionCategory : Type 0 where
  api_key bearer_token jwt github_token gitlab_token anthropic_key openai_key : RedactionCategory
  aws_access_key private_key password connection_string : RedactionCategory
  dotenv_value kubernetes_secret : RedactionCategory

unfoldable pub Category-discrete : Discrete RedactionCategory
Category-discrete = hlevel

abbrev pub Counts : Type 0
Counts = Dict RedactionCategory ℕ

pub record RedactionReport : Type 0 where
  pub counts : Counts

-- `_a_category_with_nothing_redacted_is_absent`
unfoldable pub new_report : Counts → Valid RedactionReport
new_report counts =
    if all (λ entry. leb 1 entry.1) counts
    then ok (record { counts = counts })
    else err count_below_one

abbrev pub sum_counts : Counts → ℕ
sum_counts [] = 0
sum_counts ((category, n) ∷ rest) = n + sum_counts rest

abbrev pub total : RedactionReport → ℕ
total report = sum_counts report.counts

abbrev pub report_is_empty : RedactionReport → Bool
report_is_empty report = is_empty report.counts

-- `counts[category] = counts.get(category, 0) + n`
abbrev pub or_zero : Option ℕ → ℕ
or_zero none = 0
or_zero (some n) = n

unfoldable pub add_count : RedactionCategory → ℕ → Counts → Counts
unfolding lookup insert
add_count category n counts =
    insert Category-discrete category (or_zero (lookup Category-discrete category counts) + n)
      counts

pub sum_counts-add_count :
    (category : RedactionCategory) (n : ℕ) (counts : Counts)
    → sum_counts (add_count category n counts) ≡ sum_counts counts + n
unfolding add_count
sum_counts-add_count category n [] = omega arith
sum_counts-add_count category n ((c, m) ∷ rest) =
    ground (arith, sum_counts-add_count category n rest)

abbrev pub IsPositive : Counts → Type 0
IsPositive = All (λ entry. 1 ≤ entry.1)

pub add_count-IsPositive :
    (category : RedactionCategory) (n : ℕ) (counts : Counts)
    → 1 ≤ n
    → IsPositive counts
    → IsPositive (add_count category n counts)
unfolding add_count
add_count-IsPositive category n [] p h = (omega arith, tt)
add_count-IsPositive category n ((c, m) ∷ rest) p h =
    ground (arith, add_count-IsPositive category n rest p)

pub new_report-ok :
    (counts : Counts) → IsPositive counts → new_report counts ≡ ok (record { counts = counts })
unfolding new_report
new_report-ok [] h = refl
new_report-ok ((c, n) ∷ rest) h = ground (arith, new_report-ok rest)
