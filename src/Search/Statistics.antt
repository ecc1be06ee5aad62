-- ===== src/Search/Statistics.antt =====
-- web/src/features/search/types/tagStatistics.ts.
use teletrace.Base.{List}
use teletrace.Search.Types.{SearchFilter, Timeframe}

pub data TagStatistic : Type 0 where
  min max avg p99 : TagStatistic

pub record TagStatisticsRequest (N : Type 0) : Type 0 where
  pub filters : List (SearchFilter N)
  pub timeframe : Timeframe
  pub desired_statistics : List TagStatistic

-- The statistics of a response: none where the object is empty, else the two that were asked for.
pub record TagStatistics (N : Type 0) : Type 0 where
  pub min : N
  pub max : N
