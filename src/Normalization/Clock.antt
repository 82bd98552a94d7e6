-- ===== src/Normalization/Clock.antt =====
-- The printed times of canonical.py.
use hermes_memory.Base.{
  ℕ, zero, suc, ◌+◌, ◌*◌, ◌/◌, ◌%◌, ◌<◌, ◌≡◌, refl, sym, ◌∙◌, [], ◌∷◌, ◌++◌, Str, length,
  length-append, arith,
}
use hermes_memory.Normalization.Values.{Civil}
use hermes_memory.Normalization.Canonical.{padded, format}

abbrev limit : ℕ → ℕ
limit zero = 1
limit (suc w) = 10 * limit w

length-padded : (w n : ℕ) → length (padded w n) ≡ w
unfolding padded
length-padded zero n = refl
length-padded (suc w) n =
    omega
      (arith, length-append (padded w (n / 10)) ((b'0' + n % 10) ∷ []), length-padded w (n / 10))

cancel_append :
    (xs ys us vs : Str) → length xs ≡ length ys → xs ++ us ≡ ys ++ vs → (xs ≡ ys) × (us ≡ vs)
cancel_append [] [] us vs l h = (refl, h)
cancel_append [] (y ∷ ys) us vs l h = absurd (omega arith)
cancel_append (x ∷ xs) [] us vs l h = absurd (omega arith)
cancel_append (x ∷ xs) (y ∷ ys) us vs l h = ground (arith, cancel_append xs ys us vs)

padded-injective : (w a b : ℕ) → a < limit w → b < limit w → padded w a ≡ padded w b → a ≡ b
unfolding padded
padded-injective zero a b p q h = omega arith
padded-injective (suc w) a b p q h =
    let la = length-padded w (a / 10) in
    let lb = length-padded w (b / 10) in
    let (heads, lasts) =
      cancel_append (padded w (a / 10)) (padded w (b / 10)) _ _ (la ∙ sym lb) h in
    let same = padded-injective w (a / 10) (b / 10) (omega arith) (omega arith) heads in
    let digit : a % 10 ≡ b % 10 = ground arith in omega arith

-- The fields of a datetime fit the widths they are printed at.
pub record IsCivil (c : Civil) : Type 0 where
  pub year : c.year < 10000
  pub month : c.month < 100
  pub day : c.day < 100
  pub hour : c.hour < 100
  pub minute : c.minute < 100
  pub second : c.second < 100
  pub microsecond : c.microsecond < 1000000

split_field :
    (w a b : ℕ) (us vs : Str)
    → a < limit w
    → b < limit w
    → padded w a ++ us ≡ padded w b ++ vs
    → (a ≡ b) × (us ≡ vs)
split_field w a b us vs p q h =
    let (same, rest) =
      cancel_append (padded w a) (padded w b) us vs (length-padded w a ∙ sym (length-padded w b))
        h in
    (padded-injective w a b p q same, rest)

tail_of : {x y : ℕ} {us vs : Str} → ◌≡◌ {A = Str} (x ∷ us) (y ∷ vs) → us ≡ vs
tail_of h = cc

pub format-injective : (a b : Civil) → IsCivil a → IsCivil b → format a ≡ format b → a ≡ b
unfolding format
format-injective a b p q h =
    let (year, h1) = split_field 4 a.year b.year _ _ (omega arith) (omega arith) h in
    let (month, h2) = split_field 2 a.month b.month _ _ (omega arith) (omega arith) (tail_of h1) in
    let (day, h3) = split_field 2 a.day b.day _ _ (omega arith) (omega arith) (tail_of h2) in
    let (hour, h4) = split_field 2 a.hour b.hour _ _ (omega arith) (omega arith) (tail_of h3) in
    let (minute, h5) =
      split_field 2 a.minute b.minute _ _ (omega arith) (omega arith) (tail_of h4) in
    let (second, h6) =
      split_field 2 a.second b.second _ _ (omega arith) (omega arith) (tail_of h5) in
    let (micro, h7) =
      split_field 6 a.microsecond b.microsecond _ _ (omega arith) (omega arith) (tail_of h6) in
    λ i. record {
      year = year i;
      month = month i;
      day = day i;
      hour = hour i;
      minute = minute i;
      second = second i;
      microsecond = micro i;
    }
