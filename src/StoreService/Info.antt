-- ===== src/StoreService/Info.antt =====
-- `info_response` of store_service.rs: the time range of each set of external labels, and of all.
pub mod Cover
use thanos_datafusion_experi.Common.{Bool, true, false, ◌&&◌, List, [], ◌∷◌, map, if◌then◌else◌}
use thanos_datafusion_experi.Common.Int.{ℤ, pos, leb_ℤ}
use thanos_datafusion_experi.Common.Text.{Text, text_eq, text_ltb, codes}
use thanos_datafusion_experi.Common.Maps.{Labels}

pub record BlockMetadata : Type 0 where
  pub min_time : ℤ
  pub max_time : ℤ
  pub external_labels : Labels

abbrev pub min_ℤ : ℤ → ℤ → ℤ
min_ℤ a b = if leb_ℤ a b then a else b

abbrev pub max_ℤ : ℤ → ℤ → ℤ
max_ℤ a b = if leb_ℤ a b then b else a

-- `labels_key`: the entries of the map in key order, which is what a `Labels` is.
abbrev pub labels_key : Labels → Labels
labels_key labels = labels

unfoldable pub key_eq : Labels → Labels → Bool
unfolding text_eq
key_eq [] [] = true
key_eq ((n, v) ∷ k) ((m, w) ∷ j) = text_eq n m && (text_eq v w && key_eq k j)
key_eq _ _ = false

-- `Vec<(String, String)>` is ordered by entries, a name before its value.
unfoldable pub key_ltb : Labels → Labels → Bool
unfolding text_eq text_ltb
key_ltb [] [] = false
key_ltb [] (e ∷ j) = true
key_ltb (e ∷ k) [] = false
key_ltb ((n, v) ∷ k) ((m, w) ∷ j) =
    let rest = key_ltb k j in
    if text_eq n m then (if text_eq v w then rest else text_ltb v w) else text_ltb n m

-- `BTreeMap<Vec<(String, String)>, (i64, i64)>`
abbrev pub Ranges : Type 0
Ranges = List (Labels × ℤ × ℤ)

-- `ranges.entry(key).and_modify(..).or_insert(..)`
unfoldable pub widen : Labels → ℤ → ℤ → Ranges → Ranges
unfolding key_eq key_ltb
widen key lo hi [] = (key, lo, hi) ∷ []
widen key lo hi ((j, a, b) ∷ ranges) =
    let rest = widen key lo hi ranges in
    if key_eq j key
    then (j, min_ℤ a lo, max_ℤ b hi) ∷ ranges
    else if key_ltb key j
    then (key, lo, hi) ∷ (j, a, b) ∷ ranges
    else (j, a, b) ∷ rest

unfoldable pub ranges_of : List BlockMetadata → Ranges → Ranges
unfolding widen
ranges_of [] ranges = ranges
ranges_of (block ∷ blocks) ranges =
    ranges_of blocks (widen (labels_key block.external_labels) block.min_time block.max_time ranges)

-- `ranges.values().map(|(min, _)| *min).min()`, from the first value on.
unfoldable pub least : ℤ → Ranges → ℤ
least lo [] = lo
least lo ((k, a, b) ∷ ranges) = least (min_ℤ lo a) ranges

unfoldable pub greatest : ℤ → Ranges → ℤ
greatest hi [] = hi
greatest hi ((k, a, b) ∷ ranges) = greatest (max_ℤ hi b) ranges

-- `.unwrap_or(0)`
unfoldable pub least_or_zero : Ranges → ℤ
unfolding least
least_or_zero [] = pos 0
least_or_zero ((k, a, b) ∷ ranges) = least a ranges

unfoldable pub greatest_or_zero : Ranges → ℤ
unfolding greatest
greatest_or_zero [] = pos 0
greatest_or_zero ((k, a, b) ∷ ranges) = greatest b ranges

pub record InfoResponse : Type 0 where
  pub label_sets : List Labels
  pub component_type : Text
  pub min_time : ℤ
  pub max_time : ℤ
  pub tsdb_infos : Ranges

unfoldable pub info_response : List BlockMetadata → InfoResponse
unfolding ranges_of least_or_zero greatest_or_zero
info_response blocks =
    let ranges = ranges_of blocks [] in
    record {
      label_sets = map (λ r. r.0) ranges;
      component_type = codes "store";
      min_time = least_or_zero ranges;
      max_time = greatest_or_zero ranges;
      tsdb_infos = ranges;
    }
