-- ===== src/Measurements/Statistics.antt =====
-- core/measurements.c: the sum, maximum and minimum of the samples against the list of the readings.
use osm_firmware_v.Base.{
  ℕ, suc, ◌+◌, ◌*◌, ◌^◌, ◌≤◌, ◌<◌, ◌≡◌, ◌≢◌, ◌⊎◌, inl, inr, refl, ap, sym, subst, ◌∙◌, arith, true,
  List, [], ◌∷◌, Option, none, some, Bool-cases, ltb→lt, ltb→le, ◌==◌, ==_iff, ne→==, length,
}
use osm_firmware_v.Base.Ints.{ℤ, plus, minus, ◌+ℤ◌, ◌≤ℤ◌, ltbℤ}
use osm_firmware_v.Hexblob.{Stats}
use osm_firmware_v.Measurements.{
  Data, value_64, counted, first_stats, more_stats, stats_64, in_range, sample_proc_i64,
}

-- The readings one after the other.
unfoldable pub collect_64 : Data → List ℤ → Option Data
collect_64 d [] = some d
collect_64 d (v ∷ vs) = elim (sample_proc_i64 d v) [ none ↦ none | some d' ↦ collect_64 d' vs ]

unfoldable pub total : ℤ → List ℤ → ℤ
total acc [] = acc
total acc (v ∷ vs) = total (acc +ℤ v) vs

unfoldable pub AllLe : List ℤ → ℤ → Type 0
AllLe [] m = Unit
AllLe (v ∷ vs) m = (v ≤ℤ m) × AllLe vs m

unfoldable pub AllGe : List ℤ → ℤ → Type 0
AllGe [] m = Unit
AllGe (v ∷ vs) m = (m ≤ℤ v) × AllGe vs m

unfoldable pub Among : ℤ → List ℤ → Type 0
Among m [] = ⊥
Among m (v ∷ vs) = (m ≡ v) ⊎ Among m vs

-- 2^56 either way.
abbrev pub Small : ℤ → Type 0
Small v = (plus v ≤ 2 ^ 56) × (minus v ≤ 2 ^ 56)

unfoldable pub AllSmall : List ℤ → Type 0
AllSmall [] = Unit
AllSmall (v ∷ vs) = Small v × AllSmall vs

-- At most `k` times as large.
abbrev pub Within : ℕ → ℤ → Type 0
Within k v = (plus v ≤ k * 2 ^ 56) × (minus v ≤ k * 2 ^ 56)

pub plus-add : (a b : ℤ) → plus (a +ℤ b) ≤ plus a + plus b
unfolding ◌+ℤ◌
plus-add a b = ground arith

pub minus-add : (a b : ℤ) → minus (a +ℤ b) ≤ minus a + minus b
unfolding ◌+ℤ◌
minus-add a b = ground arith

pub Within-add : (k : ℕ) (a b : ℤ) → Within k a → Small b → Within (k + 1) (a +ℤ b)
Within-add k a b (p, m) (p', m') =
    (omega (arith, p, p', plus-add a b), omega (arith, m, m', minus-add a b))

pub in_range-Within : (k : ℕ) (v : ℤ) → Within k v → k < 128 → in_range (2 ^ 63) v ≡ true
in_range-Within k v (p, m) i = ground arith

-- The statistics `s'` are those of `s` with more readings.
pub record Summed (s s' : Stats) (vs : List ℤ) : Type 0 where
  pub sum : s'.sum ≡ total s.sum vs
  pub upper : AllLe vs s'.max
  pub rises : s.max ≤ℤ s'.max
  pub max_from : (s'.max ≡ s.max) ⊎ Among s'.max vs
  pub lower : AllGe vs s'.min
  pub falls : s'.min ≤ℤ s.min
  pub min_from : (s'.min ≡ s.min) ⊎ Among s'.min vs

pub ≤ℤ-trans : (a b c : ℤ) → a ≤ℤ b → b ≤ℤ c → a ≤ℤ c
≤ℤ-trans a b c p q = omega (arith, p, q)

-- One reading more.
pub more_stats-Summed :
    (s : Stats) (v : ℤ)
    → s.min ≤ℤ s.max
    → in_range (2 ^ 63) (s.sum +ℤ v) ≡ true
    → (s' : Stats) × (more_stats (2 ^ 63) s v ≡ some s') × Summed s s' (v ∷ []) × (s'.min ≤ℤ s'.max)
unfolding more_stats total AllLe AllGe Among
more_stats-Summed s v ordered fits = elim (Bool-cases (ltbℤ s.max v)) [
  | inl over ↦
      let above : plus s.max + minus v < plus v + minus s.max = ltb→lt _ _ over in
      (
        record { sum = s.sum +ℤ v; max = v; min = s.min },
        rw (fits, over) refl,
        record {
          sum = refl;
          upper = (omega arith, tt);
          rises = omega (arith, above);
          max_from = inr (inl refl);
          lower = (omega (arith, above, ordered), tt);
          falls = omega arith;
          min_from = inl refl;
        },
        omega (arith, above, ordered),
      )
  | inr under ↦
      let not_above : plus v + minus s.max ≤ plus s.max + minus v = ltb→le _ _ under in
      elim (Bool-cases (ltbℤ v s.min)) [
        | inl less ↦
            let below : plus v + minus s.min < plus s.min + minus v = ltb→lt _ _ less in
            (
              record { sum = s.sum +ℤ v; max = s.max; min = v },
              rw (fits, under, less) refl,
              record {
                sum = refl;
                upper = (omega (arith, not_above), tt);
                rises = omega arith;
                max_from = inl refl;
                lower = (omega arith, tt);
                falls = omega (arith, below);
                min_from = inr (inl refl);
              },
              omega (arith, not_above),
            )
        | inr between ↦
            let not_below : plus s.min + minus v ≤ plus v + minus s.min = ltb→le _ _ between in
            (
              record { sum = s.sum +ℤ v; max = s.max; min = s.min },
              rw (fits, under, between) refl,
              record {
                sum = refl;
                upper = (omega (arith, not_above), tt);
                rises = omega arith;
                max_from = inl refl;
                lower = (omega (arith, not_below), tt);
                falls = omega arith;
                min_from = inl refl;
              },
              ordered,
            )
      ]
]

-- No reading more, and one more in front of others.
pub Summed-none : (s : Stats) → Summed s s []
unfolding total AllLe AllGe Among
Summed-none s = record {
  sum = refl;
  upper = tt;
  rises = omega arith;
  max_from = inl refl;
  lower = tt;
  falls = omega arith;
  min_from = inl refl;
}

pub Among-later :
    (m m₀ v : ℤ) (vs : List ℤ) (n : ℤ)
    → (n ≡ m₀) ⊎ Among n (v ∷ [])
    → (m ≡ n) ⊎ Among m vs
    → (m ≡ m₀) ⊎ Among m (v ∷ vs)
unfolding Among
Among-later m m₀ v vs n from (inr later) = inr (inr later)
Among-later m m₀ v vs n (inl e) (inl e') = inl (e' ∙ e)
Among-later m m₀ v vs n (inr (inl e)) (inl e') = inr (inl (e' ∙ e))
Among-later m m₀ v vs n (inr (inr never)) (inl e') = absurd never

pub Summed-cons :
    (s s₁ s' : Stats) (v : ℤ) (vs : List ℤ)
    → Summed s s₁ (v ∷ [])
    → Summed s₁ s' vs
    → Summed s s' (v ∷ vs)
unfolding total AllLe AllGe
Summed-cons s s₁ s' v vs one rest = record {
  sum = rest.sum ∙ ap (λ acc. total acc vs) one.sum;
  upper = (≤ℤ-trans v s₁.max s'.max one.upper.0 rest.rises, rest.upper);
  rises = ≤ℤ-trans s.max s₁.max s'.max one.rises rest.rises;
  max_from = Among-later s'.max s.max v vs s₁.max one.max_from rest.max_from;
  lower = (≤ℤ-trans s'.min s₁.min v rest.falls one.lower.0, rest.lower);
  falls = ≤ℤ-trans s'.min s₁.min s.min rest.falls one.falls;
  min_from = Among-later s'.min s.min v vs s₁.min one.min_from rest.min_from;
}

pub sample_proc_i64-first :
    (d : Data) (v : ℤ)
    → d.num_samples ≡ 0
    → sample_proc_i64 d v ≡ some (counted d (value_64 (first_stats v)))
unfolding sample_proc_i64
sample_proc_i64-first d v e =
    let first : (d.num_samples == 0) ≡ true = (==_iff d.num_samples 0).1 e in rw (first) refl

pub sample_proc_i64-more_stats :
    (d : Data) (v : ℤ) (s s' : Stats)
    → d.num_samples ≢ 0
    → d.value ≡ value_64 s
    → more_stats (2 ^ 63) s v ≡ some s'
    → sample_proc_i64 d v ≡ some (counted d (value_64 s'))
unfolding sample_proc_i64 stats_64
sample_proc_i64-more_stats d v s s' ne value one =
    rw (ne→== d.num_samples 0 ne, ap stats_64 value, one) refl

pub collect_64-cons :
    (d d' d'' : Data) (v : ℤ) (vs : List ℤ)
    → sample_proc_i64 d v ≡ some d'
    → collect_64 d' vs ≡ some d''
    → collect_64 d (v ∷ vs) ≡ some d''
unfolding collect_64
collect_64-cons d d' d'' v vs one rest = rw (collect_64, one) rest

-- The data hold the statistics of `k` samples.
abbrev pub Holding : Data → ℕ → Stats → Type 0
Holding d k s = (d.value ≡ value_64 s) × (d.num_samples ≡ k)

pub collect_64-Summed :
    (vs : List ℤ) (d : Data) (k : ℕ) (s : Stats)
    → Holding d (suc k) s
    → suc k + length vs < 128
    → s.min ≤ℤ s.max
    → Within (suc k) s.sum
    → AllSmall vs
    → (d' : Data) × (s' : Stats) × (collect_64 d vs ≡ some d')
      × Holding d' (suc k + length vs) s'
      × Summed s s' vs
unfolding collect_64 AllSmall total
collect_64-Summed [] d k s (value, n) few ordered within small =
    (d, s, refl, (value, omega (arith, n)), Summed-none s)
collect_64-Summed (v ∷ vs) d k s (value, n) few ordered within (small, smalls) =
    let within' : Within (suc (suc k)) (s.sum +ℤ v) = (
      omega (arith, (Within-add (suc k) s.sum v within small).0),
      omega (arith, (Within-add (suc k) s.sum v within small).1),
    ) in
    let (s₁, one, summed, ordered') =
      more_stats-Summed s v ordered
        (in_range-Within (suc (suc k)) (s.sum +ℤ v) within' (omega (arith, few))) in
    let (d', s', rest, held, summed') =
      collect_64-Summed vs (counted d (value_64 s₁)) (suc k) s₁ (refl, omega (arith, n, few))
        (omega (arith, few)) ordered' (subst (Within (suc (suc k))) (sym summed.sum) within')
        smalls in
    (
      d',
      s',
      collect_64-cons d (counted d (value_64 s₁)) d' v vs
          (sample_proc_i64-more_stats d v s s₁ (λ e. absurd (omega (arith, n, e))) value one) rest,
      (held.0, omega (arith, held.1)),
      Summed-cons s s₁ s' v vs summed summed',
    )

-- The statistics are those of the readings.
pub record StatsOf (s : Stats) (v : ℤ) (vs : List ℤ) : Type 0 where
  pub sum : s.sum ≡ total v vs
  pub upper : AllLe (v ∷ vs) s.max
  pub max_among : Among s.max (v ∷ vs)
  pub lower : AllGe (v ∷ vs) s.min
  pub min_among : Among s.min (v ∷ vs)

-- From data without samples.
pub collect_64-StatsOf :
    (v : ℤ) (vs : List ℤ) (d : Data)
    → d.num_samples ≡ 0
    → length (v ∷ vs) < 128
    → AllSmall (v ∷ vs)
    → (d' : Data) × (s : Stats) × (collect_64 d (v ∷ vs) ≡ some d')
      × (d'.value ≡ value_64 s)
      × (d'.num_samples ≡ length (v ∷ vs))
      × StatsOf s v vs
unfolding AllSmall AllLe AllGe Among
collect_64-StatsOf v vs d none_yet few (small, smalls) =
    let (d', s, done, held, summed) =
      collect_64-Summed vs (counted d (value_64 (first_stats v))) 0 (first_stats v)
        (refl, omega (arith, none_yet)) (omega (arith, few)) (omega arith)
        (omega (arith, small.0), omega (arith, small.1)) smalls in
    (
      d',
      s,
      collect_64-cons d (counted d (value_64 (first_stats v))) d' v vs
          (sample_proc_i64-first d v none_yet) done,
      held.0,
      omega (arith, held.1),
      record {
        sum = summed.sum;
        upper = (summed.rises, summed.upper);
        max_among = summed.max_from;
        lower = (summed.falls, summed.lower);
        min_among = summed.min_from;
      },
    )
