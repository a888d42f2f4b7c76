-- ===== src/Stakepoold/Winning/Tests.antt =====
-- The votes at the small pool.
use hxstakepool.Prelude.{some, ◌≡◌, ◌≢◌, ◌⊎◌, nat_eq, string_eq}
use hxstakepool.GoMap.{lookup}
use hxstakepool.Stakepoold.Context.{UserVotingConfig}
use hxstakepool.Stakepoold.Winning.{vote_config}
use hxstakepool.Stakepoold.Winning.Laws.{vote_config-bits}
use hxstakepool.Stakepoold.Example.{pool}

vote_config-bits_example :
    ((c : UserVotingConfig) × (lookup "DcUser" pool.user_voting_config ≡ some c)
      × (c.vote_bits_version ≡ 4)
      × (vote_config pool "DcUser" ≡ c))
    ⊎ (((c : UserVotingConfig)
          → lookup "DcUser" pool.user_voting_config ≡ some c
          → c.vote_bits_version ≢ 4)
        × ((vote_config pool "DcUser").vote_bits ≡ 1))
vote_config-bits_example = vote_config-bits pool "DcUser"
