-- ===== src/Serving/Profile.antt =====
-- ingestion/batch/pipeline/clickhouse_publisher.py: the profile of a dataset, by which a candidate is
-- compared with its source. The digest of the ordered rows (JSON lines and SHA-256) is a parameter.
use gb_industrial_energy_dat.Prelude.{
  ℕ, String, Bool, true, false, not, ◌&&◌, Option, none, some, List, [], ◌∷◌, map, length, any, all,
  nat_eq, if◌then◌else◌, Result, ok, err, ◌==◌, strip,
}
use gb_industrial_energy_dat.Prelude.Keys.{distinct, dedupe, text_le}
use gb_industrial_energy_dat.Serving.Ids.{sha256_pattern}
use gb_industrial_energy_dat.Serving.Changes.{
  Dataset, PublicationError, empty_key, duplicate_key, invalid_key, missing_tenant_scope, keys_of,
  sorted_by_key,
}

pub record Profile : Type 0 where
  pub row_count : ℕ
  pub unique_key_count : ℕ
  pub missing_tenant_scope_count : ℕ
  pub minimum_reporting_date : Option String
  pub maximum_reporting_date : Option String
  pub content_sha256 : String

abbrev same_text : Option String → Option String → Bool
same_text none none = true
same_text (some a) (some b) = a == b
same_text none (some b) = false
same_text (some a) none = false

-- `==` on two profiles
unfoldable pub same_profile : Profile → Profile → Bool
same_profile p q =
    nat_eq p.row_count q.row_count
    && nat_eq p.unique_key_count q.unique_key_count
    && nat_eq p.missing_tenant_scope_count q.missing_tenant_scope_count
    && same_text p.minimum_reporting_date q.minimum_reporting_date
    && same_text p.maximum_reporting_date q.maximum_reporting_date
    && (p.content_sha256 == q.content_sha256)

abbrev lesser : String → Option String → String
lesser a none = a
lesser a (some b) = if text_le a b then a else b

abbrev greater : String → Option String → String
greater a none = a
greater a (some b) = if text_le a b then b else a

-- `min(xs) if xs else None`
unfoldable pub minimum_text : List String → Option String
minimum_text [] = none
minimum_text (x ∷ xs) = some (lesser x (minimum_text xs))

-- `max(xs) if xs else None`
unfoldable pub maximum_text : List String → Option String
maximum_text [] = none
maximum_text (x ∷ xs) = some (greater x (maximum_text xs))

abbrev given : List (Option String) → List String
given [] = []
given (none ∷ xs) = given xs
given (some x ∷ xs) = x ∷ given xs

-- `_combined_date_coverage`
unfoldable pub combined_date_coverage : Profile → Profile → Option String × Option String
unfolding minimum_text maximum_text
combined_date_coverage current history = (
  minimum_text (given (current.minimum_reporting_date ∷ history.minimum_reporting_date ∷ [])),
  maximum_text (given (current.maximum_reporting_date ∷ history.maximum_reporting_date ∷ [])),
)

module _ {Row : Type 0} (dataset : Dataset Row) (digest : List Row → String) where
  abbrev pub profile_of : List Row → Profile
  profile_of rows =
      let dates = map dataset.reporting_date (sorted_by_key dataset rows) in
      record {
        row_count = length rows;
        unique_key_count = length (dedupe (keys_of dataset rows));
        missing_tenant_scope_count = 0;
        minimum_reporting_date = minimum_text dates;
        maximum_reporting_date = maximum_text dates;
        content_sha256 = digest (sorted_by_key dataset rows);
      }

  -- `_profile_dataset`
  unfoldable pub profile_dataset : List Row → Result PublicationError Profile
  profile_dataset rows =
      if any (λ k. k == "") (keys_of dataset rows)
      then err empty_key
      else if not (distinct (keys_of dataset rows))
      then err duplicate_key
      else if not (all sha256_pattern (keys_of dataset rows))
      then err invalid_key
      else if any (λ r. strip (dataset.tenant_scope r) == "") rows
      then err missing_tenant_scope
      else ok (profile_of rows)
