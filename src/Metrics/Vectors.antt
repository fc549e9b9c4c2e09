-- ===== src/Metrics/Vectors.antt =====
-- The metric vectors of pkg/utils/metrics and what is recorded in them. The Prometheus library, which
-- keeps and serves them, is not modelled.
use admission_controller.Base.{ℕ, ◌<◌, String, List, [], ◌∷◌, ◌≡◌, length}

pub record HistogramVec : Type 0 where
  pub namespace : String
  pub name : String
  pub help : String
  -- the upper bounds of the buckets, in hundredths of a second
  pub buckets : List ℕ
  pub label_names : List String

pub record CounterVec : Type 0 where
  pub namespace : String
  pub name : String
  pub help : String
  pub label_names : List String

-- `WithLabelValues(labels...).Observe(d.Seconds())`, with the time in nanoseconds
pub record Sample : Type 0 where
  pub histo : HistogramVec
  pub labels : List String
  pub duration : ℕ

-- Each bound is above the ones before it; NewHistogramVec's histograms panic on others.
abbrev pub IsIncreasing : List ℕ → Type 0
IsIncreasing [] = Unit
IsIncreasing (b ∷ []) = Unit
IsIncreasing (b ∷ c ∷ bounds) = (b < c) × IsIncreasing (c ∷ bounds)

-- The sample has a value for each label, else WithLabelValues panics, and goes to increasing buckets.
abbrev pub IsRecordable : Sample → Type 0
IsRecordable s = (length s.labels ≡ length s.histo.label_names) × IsIncreasing s.histo.buckets
