-- ===== src/Tests/StoreRuns.antt =====
-- Runs of the code of store_service.rs.
use thanos_datafusion_experi.Common.{
  concat, ◌≤◌, ◌<◌, ◌≡◌, refl, true, false, none, some, List, [], ◌∷◌, ◌++◌, map, arith, ok, length,
  All,
}
use thanos_datafusion_experi.Common.Int.{pos, ◌≤ℤ◌}
use thanos_datafusion_experi.Common.Text.{codes, text_ltb}
use thanos_datafusion_experi.StoreService.Match.{
  SeriesDescriptor, SeriesQuery, LabelsRequest, sql_literal, label_names,
}
use thanos_datafusion_experi.StoreService.Match.Select.{
  Rising, literal_of, literal_of-sql_literal, label_names-Rising,
}
use thanos_datafusion_experi.StoreService.Chunks.{Service}
use thanos_datafusion_experi.StoreService.Series.{SeriesRequest, SeriesItem, series_loop, respond}
use thanos_datafusion_experi.StoreService.Series.Limits.{
  IsAnswer, series_loop_limit, items_of, respond_lem,
}
use thanos_datafusion_experi.StoreService.Info.{BlockMetadata, info_response}
use thanos_datafusion_experi.StoreService.Info.Cover.{info_response_covers}
use thanos_datafusion_experi.Tests.ChunkRuns.{codecs}

literal_example :
    literal_of (sql_literal (codes "it's") ++ codes " AND") ≡ some (codes "it's", codes " AND")
literal_example = literal_of-sql_literal (codes "it's") (codes " AND") refl

abbrev up_series : SeriesDescriptor
up_series = record {
  repository_uri = codes "file:///data";
  downsample_resolution = pos 0;
  series_mint = pos 0;
  series_maxt = pos 10;
  labels = (codes "__name__", codes "up") ∷ (codes "job", codes "node") ∷ [];
  chunks = [];
}

abbrev names_request : LabelsRequest
names_request = record {
  label = [];
  start = pos 0;
  end = pos 10;
  matchers = [];
  request_limit = pos 1;
  without_replica_labels = [];
  has_hints = false;
}

abbrev up_query : SeriesQuery
up_query start end predicate = ok (up_series ∷ [])

names_run : label_names (λ _. none) (λ s. s) up_query names_request ≡ ok (codes "__name__" ∷ [])
unfolding label_names text_ltb
names_run = refl

names_example : Rising (codes "__name__" ∷ []) × (length (codes "__name__" ∷ []) ≤ 1)
names_example =
    label_names-Rising (λ _. none) (λ s. s) up_query names_request 0 refl (codes "__name__" ∷ [])
      names_run

abbrev service : Service
service = record { get = λ _. none; codecs = codecs; xxh64 = λ _. 0 }

abbrev bare_request : SeriesRequest
bare_request = record {
  min_time = pos 0;
  max_time = pos 10;
  matchers = [];
  max_resolution_window = pos 0;
  requested_aggregates = [];
  skip_chunks = true;
  has_hints = false;
  has_shard_info = false;
  without_replica_labels = [];
  partial_response_disabled = false;
  partial_response_strategy = pos 0;
  request_limit = pos 1;
  response_batch_size = pos 1;
}

abbrev up_item : SeriesItem
up_item = record { labels = up_series.labels; chunks = [] }

loop_run :
    series_loop service bare_request (pos 0 ∷ []) false 0 1 (up_series ∷ up_series ∷ [])
    ≡ ok (up_item ∷ [], [])
unfolding series_loop
loop_run = refl

loop_example :
    (length (up_item ∷ []) ≤ 1)
    × All (IsAnswer service bare_request (pos 0 ∷ []) false) (up_item ∷ [])
loop_example =
    series_loop_limit service bare_request (pos 0 ∷ []) false 1 (up_series ∷ up_series ∷ [])
      (up_item ∷ []) [] loop_run

abbrev three_items : List SeriesItem
three_items = up_item ∷ up_item ∷ up_item ∷ []

respond_example :
    (concat (map items_of (respond 2 three_items)) ≡ three_items)
    × All (λ r. (0 < length (items_of r)) × (length (items_of r) ≤ 2)) (respond 2 three_items)
respond_example = respond_lem 2 three_items (omega arith)

abbrev two_blocks : List BlockMetadata
two_blocks =
    record { min_time = pos 5; max_time = pos 9; external_labels = [] }
    ∷ record { min_time = pos 1; max_time = pos 7; external_labels = [] }
    ∷ []

info_example :
    All
      (λ b.
        ((info_response two_blocks).min_time ≤ℤ b.min_time)
        × (b.max_time ≤ℤ (info_response two_blocks).max_time))
      two_blocks
info_example = info_response_covers two_blocks
