-- ===== src/Conf/Tests.antt =====
-- The theorems on the configuration at a file with one pool, and runs of the code.
use timeseries_database.Base.{◌≡◌, ◌↔◌, refl, some, if◌then◌else◌}
use timeseries_database.Strings.{done, error}
use timeseries_database.Conf.Tokens.{conf_validate_tokens}
use timeseries_database.Conf.Tokens.BlockStyle.{IsBlockFile, conf_validate_tokens-IsBlockFile}
use timeseries_database.Conf.Structure.{conf_validate_structure}
use timeseries_database.Conf.Structure.OneSequence.{
  all_one, sequences, verdict, conf_validate_structure-all_one,
}
use timeseries_database.Conf.Samples.{block_tokens, one_pool, two_pools, world, fresh}

conf_validate_tokens-IsBlockFile_example :
    ((conf_validate_tokens (world one_pool) fresh).0 ≡ done) ↔ IsBlockFile block_tokens
conf_validate_tokens-IsBlockFile_example =
    conf_validate_tokens-IsBlockFile (world one_pool) fresh refl

conf_validate_structure-all_one_example :
    verdict (conf_validate_structure (world one_pool) fresh)
    ≡ (if all_one one_pool then some done else some error)
conf_validate_structure-all_one_example =
    conf_validate_structure-all_one (world one_pool) fresh one_pool refl refl

-- A second pool without a sequence.
two_pools_rejected : verdict (conf_validate_structure (world two_pools) fresh) ≡ some error
unfolding all_one sequences
two_pools_rejected = conf_validate_structure-all_one (world two_pools) fresh two_pools refl refl
