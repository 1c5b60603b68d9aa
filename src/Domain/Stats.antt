-- ===== src/Domain/Stats.antt =====
-- internal/domain/analytics.go. A bucket is Go's string, so an unknown one can be written.
use go_link_shortener.Base.{ℕ, Bool, ◌||◌, List, Bytes, codes, bytes_eq}

abbrev pub Bucket : Type 0
Bucket = Bytes

abbrev pub bucket_hour : Bucket
bucket_hour = codes "hour"

abbrev pub bucket_day : Bucket
bucket_day = codes "day"

unfoldable pub valid_bucket : Bucket → Bool
unfolding bytes_eq
valid_bucket b = bytes_eq b bucket_hour || bytes_eq b bucket_day

pub record TimePoint : Type 0 where
  pub time : ℕ
  pub total : ℕ

pub record LabelCount : Type 0 where
  pub label : Bytes
  pub total : ℕ

pub record LinkStats : Type 0 where
  pub link_id : ℕ
  pub from : ℕ
  pub to : ℕ
  pub bucket : Bucket
  pub total_clicks : ℕ
  pub series : List TimePoint
  pub top_referrers : List LabelCount
  pub top_countries : List LabelCount
  pub devices : List LabelCount

pub record TenantOverview : Type 0 where
  pub total_links : ℕ
  pub total_clicks : ℕ
  pub top_links : List LabelCount
