-- ===== src/Index/Samples.antt =====
-- Host numbers at concrete times.
use wga.Base.{ℕ, ◌+◌, ◌*◌, ◌/◌, ◌%◌, ◌^◌, ◌<◌, ◌≡◌, refl, arith, ◌≢◌, ok}
use wga.Index.{rand_limit, generate_index, big_max}
use wga.Index.Bounds.{IsRandom, rand_limit_fits, generate_index-even, generate_index-lt-big_max}
use wga.Index.Distinct.{generate_index-distinct}

abbrev lowest : ℕ → ℕ
lowest n = 0

lowest-IsRandom : IsRandom lowest
lowest-IsRandom n h = h

-- 2024-01-01
abbrev new_year : ℕ
new_year = 1704067200000000000

abbrev half : ℕ → ℕ
half n = n / 2

half-IsRandom : IsRandom half
half-IsRandom n h = omega arith

index_test : generate_index half new_year 24 ≡ ok ((new_year * 65536 + 65534) % 16777216)
unfolding generate_index
index_test = refl

rand_limit_fits_example : (0 < rand_limit 127) × (rand_limit 127 < 2 ^ 63)
rand_limit_fits_example = rand_limit_fits 127 (omega arith)

generate_index-lt-big_max_example :
    (i : ℕ) × (generate_index half new_year 24 ≡ ok i) × (i < big_max 24)
generate_index-lt-big_max_example =
    generate_index-lt-big_max half half-IsRandom new_year 24 (omega arith)

generate_index-even_example : (i : ℕ) × (generate_index half new_year 24 ≡ ok i) × (i % 2 ≡ 0)
generate_index-even_example =
    generate_index-even half half-IsRandom new_year 24 (omega arith) (omega arith)

generate_index-distinct_example :
    generate_index half new_year 80 ≢ generate_index lowest (new_year + 2) 80
generate_index-distinct_example =
    generate_index-distinct half lowest half-IsRandom lowest-IsRandom new_year (new_year + 2) 80
      (omega arith) (omega arith) (omega arith) (omega arith)
