-- ===== src/ProxyScore/Config/Tests.antt =====
-- internal/proxyscore/config.go: the theorems on the settings at concrete ones.
use trust_proxy.Base.{none, ◌≡◌, refl}
use trust_proxy.Base.Int.{pos}
use trust_proxy.ProxyScore.Config.{
  unset, Config, resolved, validate, check_ranges, first_true, first_negative, or_default,
}
use trust_proxy.ProxyScore.Config.Laws.{in_force, in_force-resolved, IsBounded, validate-IsBounded}

abbrev tuned : Config
tuned = record unset { weight_latency = pos 3; latency_good_ms = pos 120; max_streak = pos 7 }

in_force-resolved_example : in_force (resolved tuned) ≡ in_force tuned
in_force-resolved_example = in_force-resolved tuned refl refl

tuned_valid : validate tuned ≡ none
unfolding validate check_ranges first_true first_negative or_default
tuned_valid = refl

validate-IsBounded_example : IsBounded tuned
validate-IsBounded_example = validate-IsBounded tuned tuned_valid

-- With all weights at 0 the settings are accepted.
unset_valid : validate unset ≡ none
unfolding validate check_ranges first_true first_negative or_default
unset_valid = refl
